-- ===== src/Mcp/Roots/RoundTrip.antt =====
-- mcp.rs: `file_uri_to_path` reads what an encoder of file addresses writes.
use mathlib.Core.Option
use agora_protocol.Base.{
  ℕ, ◌+◌, ◌-◌, ◌*◌, ◌/◌, ◌%◌, ◌<◌, ◌≡◌, refl, ap, ◌∙◌, Bool, true, false, inl, inr, [], ◌∷◌, ◌++◌,
  none, some, Text, Bytes, strip_prefix, codes, ltb, All, Bool-cases, arith, ◌==◌, if◌then◌else◌,
  strip_prefix,
}
use agora_protocol.Base.TextLaws.{strip_prefix-append}
use agora_protocol.Base.Utf8.{utf8, utf8_char, from_utf8}
use agora_protocol.Base.Utf8.RoundTrip.{utf8-bytes, IsChar, from_utf8-utf8}
use agora_protocol.Mcp.Roots.{
  hex_digit, hex_byte, two_digits, escaped, unescape, without_slash, file_uri_to_path,
}

abbrev pub digit_char : ℕ → ℕ
digit_char n = if ltb n 10 then b'0' + n else b'A' + (n - 10)

-- An encoder: it writes the bytes that `keep` lets through as they are, and the others as escapes.
pub escape : (ℕ → Bool) → Bytes → Bytes
escape keep [] = []
escape keep (b ∷ r) =
    let rest = escape keep r in
    if keep b then b ∷ rest else b'%' ∷ digit_char (b / 16) ∷ digit_char (b % 16) ∷ rest

-- What an encoder may leave as it is: only ASCII characters other than the percent sign.
pub record IsEncoder (keep : ℕ → Bool) : Type 0 where
  pub percent : keep b'%' ≡ false
  pub ascii : (b : ℕ) → keep b ≡ true → b < 0x80

hex_digit-digit_char : (n : ℕ) → n < 16 → hex_digit (digit_char n) ≡ some n
unfolding hex_digit
hex_digit-digit_char n h = ground arith

hex_byte-two :
    (a c x y : ℕ)
    → (a == b'+') ≡ false
    → hex_digit a ≡ some x
    → hex_digit c ≡ some y
    → hex_byte a c ≡ some (x * 16 + y)
unfolding hex_byte two_digits
hex_byte-two a c x y p g h = rw (p, hex_byte) (rw (g, h) refl)

escaped-plain : (b : ℕ) (r : Bytes) → (b == b'%') ≡ false → escaped (b ∷ r) ≡ none
unfolding escaped
escaped-plain b [] h = refl
escaped-plain b (c ∷ []) h = refl
escaped-plain b (c ∷ d ∷ r) h = rw h refl

unescape-plain : (b : ℕ) (r : Bytes) → (b == b'%') ≡ false → unescape 0 (b ∷ r) ≡ b ∷ unescape 0 r
unfolding unescape
unescape-plain b r h = rw (escaped-plain b r h, unescape) refl

unescape-byte :
    (a c x : ℕ) (r : Bytes)
    → hex_byte a c ≡ some x
    → unescape 0 (b'%' ∷ a ∷ c ∷ r) ≡ x ∷ unescape 0 r
unfolding unescape escaped
unescape-byte a c x r h = rw (h, unescape, escaped) refl

hex_byte-digits : (b : ℕ) → b < 256 → hex_byte (digit_char (b / 16)) (digit_char (b % 16)) ≡ some b
hex_byte-digits b h =
    hex_byte-two (digit_char (b / 16)) (digit_char (b % 16)) (b / 16) (b % 16) (ground arith)
      (hex_digit-digit_char (b / 16) (omega arith)) (hex_digit-digit_char (b % 16) (omega arith))
    ∙ ap some (omega arith)

utf8_ascii : (s : Text) → All (λ c. c < 0x80) s → utf8 s ≡ s
unfolding utf8 utf8_char
utf8_ascii [] h = refl
utf8_ascii (c ∷ s) h = ground (arith, utf8_ascii s h.1)

module _ (keep : ℕ → Bool) (k : IsEncoder keep) where
  escape-ascii : (b : Bytes) → All (λ x. x < 256) b → All (λ x. x < 0x80) (escape keep b)
  unfolding escape
  escape-ascii [] h = tt
  escape-ascii (b ∷ r) h = elim (Bool-cases (keep b)) [
    | inl e ↦ rw e (k.ascii b e, escape-ascii r h.1)
    | inr e ↦ rw e (omega arith, (ground arith, (ground arith, escape-ascii r h.1)))
  ]

  same : (b : ℕ) → (b == b'%') ≡ true → b ≡ b'%'
  same b p = ground arith

  kept-plain : (b : ℕ) → keep b ≡ true → (b == b'%') ≡ false
  kept-plain b e = elim (Bool-cases (b == b'%')) [
    | inl p ↦ absurd (ground (arith, ap keep (same b p), k.percent))
    | inr p ↦ p
  ]

  unescape-escape : (b : Bytes) → All (λ x. x < 256) b → unescape 0 (escape keep b) ≡ b
  unfolding escape unescape
  unescape-escape [] h = refl
  unescape-escape (b ∷ r) h = elim (Bool-cases (keep b)) [
    | inl e ↦ rw e (unescape-plain b _ (kept-plain b e) ∙ ap (λ t. b ∷ t) (unescape-escape r h.1))
    | inr e ↦ rw e (
        unescape-byte (digit_char (b / 16)) (digit_char (b % 16)) b (escape keep r)
          (hex_byte-digits b h.0)
        ∙ ap (λ t. b ∷ t) (unescape-escape r h.1))
  ]

file_uri_to_path-rest :
    (uri rest : Text)
    → strip_prefix (codes "file://") uri ≡ some rest
    → file_uri_to_path uri ≡ Option.map without_slash (from_utf8 (unescape 0 (utf8 rest)))
unfolding file_uri_to_path
file_uri_to_path-rest uri rest h = rw (h, file_uri_to_path) refl

-- Whatever the names in a path are, and whichever bytes an encoder escapes, as long as it escapes the
-- percent sign and all that is not ASCII: the path that is read from its file address is the one
-- that was written, without the slash in front of a drive letter.
pub file_uri_to_path-escape :
    (keep : ℕ → Bool) (path : Text)
    → IsEncoder keep
    → All IsChar path
    → file_uri_to_path (codes "file://" ++ escape keep (utf8 path)) ≡ some (without_slash path)
file_uri_to_path-escape keep path k h =
    let bytes = utf8-bytes path h in
    let written = escape keep (utf8 path) in
    file_uri_to_path-rest _ written (strip_prefix-append (codes "file://") written)
    ∙ ap (λ b. Option.map without_slash (from_utf8 (unescape 0 b)))
        (utf8_ascii written (escape-ascii keep k (utf8 path) bytes))
    ∙ ap (λ b. Option.map without_slash (from_utf8 b)) (unescape-escape keep k (utf8 path) bytes)
    ∙ ap (Option.map without_slash) (from_utf8-utf8 path h)
