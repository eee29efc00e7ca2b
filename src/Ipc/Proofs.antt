-- ===== src/Ipc/Proofs.antt =====
-- node.rs: what a proof of `mac` is bound to.
use agora_protocol.Base.{
  ℕ, ◌+◌, ◌*◌, ◌<◌, ◌≡◌, ◌≢◌, refl, sym, ap, ◌∙◌, inl, inr, ◌⊎◌, List, [], ◌∷◌, ◌++◌, Text, Bytes,
  length, take, drop, take-append, drop-append, eq_of_some, text_eq, text_eq_sound, text_eq_iff,
  All, Bool-cases, arith,
}
use agora_protocol.Base.Utf8.{utf8, from_utf8}
use agora_protocol.Base.Utf8.RoundTrip.{IsChar, from_utf8-utf8}
use agora_protocol.Wire.{u32_bytes}
use agora_protocol.Ipc.{Hex, mac_input, key_of, mac}

-- A text of Rust whose length fits a `u32`.
abbrev pub IsPart : Text → Type 0
IsPart p = All IsChar p × (length (utf8 p) < 4294967296)

pub utf8_injective : (a b : Text) → All IsChar a → All IsChar b → utf8 a ≡ utf8 b → a ≡ b
utf8_injective a b ha hb e =
    eq_of_some a b (sym (from_utf8-utf8 a ha) ∙ ap from_utf8 e ∙ from_utf8-utf8 b hb)

length_value : Bytes → ℕ
length_value (a ∷ b ∷ c ∷ d ∷ r) = a * 16777216 + b * 65536 + c * 256 + d
length_value _ = 0

length_value-u32_bytes : (n : ℕ) (r : Bytes) → n < 4294967296 → length_value (u32_bytes n ++ r) ≡ n
unfolding length_value u32_bytes
length_value-u32_bytes n r h = omega arith

-- What stands behind a length of known value.
behind : (n : ℕ) (r : Bytes) → drop 4 (u32_bytes n ++ r) ≡ r
unfolding u32_bytes
behind n r = refl

length-parts :
    (p q : Text) (r t : Bytes)
    → IsPart p
    → IsPart q
    → u32_bytes (length (utf8 p)) ++ r ≡ u32_bytes (length (utf8 q)) ++ t
    → (length (utf8 p) ≡ length (utf8 q)) × (r ≡ t)
length-parts p q r t hp hq e = (
  sym (length_value-u32_bytes _ r hp.1) ∙ ap length_value e ∙ length_value-u32_bytes _ t hq.1,
  sym (behind _ r) ∙ ap (λ b. drop 4 b) e ∙ behind _ t,
)

halves : (a b r t : Bytes) → length a ≡ length b → a ++ r ≡ b ++ t → (a ≡ b) × (r ≡ t)
halves a b r t l e = (
  sym (take-append a r) ∙ ap (take (length a)) e ∙ ap (λ n. take n (b ++ t)) l ∙ take-append b t,
  sym (drop-append a r) ∙ ap (drop (length a)) e ∙ ap (λ n. drop n (b ++ t)) l ∙ drop-append b t,
)

list_eq : {p q : Text} {ps qs : List Text} → p ≡ q → ps ≡ qs → (p ∷ ps) ≡ (q ∷ qs)
list_eq e f = cc

mac_input_injective :
    (ps qs : List Text) → All IsPart ps → All IsPart qs → mac_input ps ≡ mac_input qs → ps ≡ qs
unfolding mac_input u32_bytes
mac_input_injective [] [] hp hq e = refl
mac_input_injective [] (q ∷ qs) hp hq e = absurd (cc)
mac_input_injective (p ∷ ps) [] hp hq e = absurd (cc)
mac_input_injective (p ∷ ps) (q ∷ qs) hp hq e =
    let l = length-parts p q (utf8 p ++ mac_input ps) (utf8 q ++ mac_input qs) hp.0 hq.0 e in
    let h = halves (utf8 p) (utf8 q) (mac_input ps) (mac_input qs) l.0 l.1 in
    list_eq (utf8_injective p q hp.0.0 hq.0.0 h.0) (mac_input_injective ps qs hp.1 hq.1 h.1)

-- Two different inputs on which a keyed hash agrees.
abbrev pub Collision : (Bytes → Bytes) → Type 0
Collision hash = (a : Bytes) × (b : Bytes) × (a ≢ b) × (hash a ≡ hash b)

module _ (hex : Hex) (keyed : Bytes → Bytes → Bytes) where
  encode_injective : (a b : Bytes) → hex.encode a ≡ hex.encode b → a ≡ b
  encode_injective a b e =
      eq_of_some a b (sym (hex.decode-encode a) ∙ ap hex.decode e ∙ hex.decode-encode b)

  hashed_equal :
      (token : Text) (ps qs : List Text)
      → mac hex keyed token ps ≡ mac hex keyed token qs
      → keyed (key_of (hex.decode token)) (mac_input ps)
        ≡ keyed (key_of (hex.decode token)) (mac_input qs)
  unfolding mac
  hashed_equal token ps qs e = encode_injective _ _ e

  -- Two proofs under one token are the same only if the same parts in the same order were proved, or
  -- the keyed hash has a collision that the two inputs exhibit.
  pub mac-parts :
      (token : Text) (ps qs : List Text)
      → All IsPart ps
      → All IsPart qs
      → mac hex keyed token ps ≡ mac hex keyed token qs
      → (ps ≡ qs) ⊎ Collision (keyed (key_of (hex.decode token)))
  mac-parts token ps qs hp hq e = elim (Bool-cases (text_eq (mac_input ps) (mac_input qs))) [
    | inl h ↦ inl (mac_input_injective ps qs hp hq (text_eq_sound _ _ h))
    | inr h ↦ inr (
      mac_input ps,
      mac_input qs,
      (λ d. absurd (ground (arith, h, text_eq_iff (mac_input ps) (mac_input qs), d))),
      hashed_equal token ps qs e,
    )
  ]
