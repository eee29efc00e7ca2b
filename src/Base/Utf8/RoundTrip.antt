-- ===== src/Base/Utf8/RoundTrip.antt =====
-- Decoding undoes encoding.
use Prim.Native.Nat.{ℕ, suc, ◌+◌, ◌-◌, ◌*◌, ◌/◌, ◌%◌, ◌<◌, ◌≤◌}
use mathlib.Core.Path.{◌≡◌, refl, ap, ◌∙◌}
use mathlib.Core.Logic.{inl, inr, ◌⊎◌}
use mathlib.Core.Bool.{true}
use mathlib.Core.List.{[], ◌∷◌, ◌++◌}
use mathlib.Core.Option.{some}
use native.Mathlib.Omega.{arith}
use agora_protocol.Base.Tests.{Option-cases, ltb, if◌then◌else◌, between, ◌==◌, Bool-cases}
use agora_protocol.Base.Lists.{All, All-append}
use agora_protocol.Base.Strings.{Text, Bytes}
use agora_protocol.Base.Utf8.{utf8, utf8_char, from_utf8, chars_from, lead, push_char}

-- A `char`: a code point that is not a surrogate.
abbrev pub IsChar : ℕ → Type 0
IsChar c = (c < 0x110000) × ((c < 0xD800) ⊎ (0xDFFF < c))

pushed : (lo hi c : ℕ) (r : Bytes) → chars_from 0 lo hi c r ≡ push_char c (from_utf8 r)
unfolding from_utf8 chars_from push_char
pushed lo hi c [] = refl
pushed lo hi c (b ∷ r) = elim (Option-cases (lead b)) [
  | inl e ↦ rw (e, chars_from, from_utf8) refl
  | inr (d, e) ↦ rw (e, chars_from, from_utf8) refl
]

led :
    (b n lo hi d : ℕ) (r : Bytes)
    → lead b ≡ some (n, lo, hi, d)
    → from_utf8 (b ∷ r) ≡ chars_from n lo hi d r
unfolding from_utf8
led b n lo hi d r h = rw (h, from_utf8) refl

taken :
    (n lo hi c b : ℕ) (r : Bytes)
    → between lo hi b ≡ true
    → chars_from (suc n) lo hi c (b ∷ r) ≡ chars_from n 0x80 0xBF (c * 64 + (b - 0x80)) r
unfolding chars_from
taken n lo hi c b r h = rw (h, chars_from) refl

lead_two : (c : ℕ) → 0x80 ≤ c → c < 0x800 → lead (0xC0 + c / 64) ≡ some (1, 0x80, 0xBF, c / 64)
unfolding lead
lead_two c l u = ground arith

two :
    (c : ℕ) (r : Bytes)
    → 0x80 ≤ c
    → c < 0x800
    → from_utf8 ((0xC0 + c / 64) ∷ (0x80 + c % 64) ∷ r) ≡ push_char c (from_utf8 r)
two c r l u =
    led _ 1 0x80 0xBF (c / 64) _ (lead_two c l u)
    ∙ taken 0 0x80 0xBF (c / 64) _ r (ground arith)
    ∙ pushed 0x80 0xBF _ r
    ∙ ap (λ x. push_char x (from_utf8 r)) (omega arith)

-- The range of the second byte of three.
low3 : ℕ → ℕ
low3 c = if ltb c 0x1000 then 0xA0 else 0x80

high3 : ℕ → ℕ
high3 c = if (c / 4096) == 13 then 0x9F else 0xBF

lead_three :
    (c : ℕ) → 0x800 ≤ c → c < 0x10000 → lead (0xE0 + c / 4096) ≡ some (2, low3 c, high3 c, c / 4096)
unfolding lead low3 high3
lead_three c l u = ground arith

low3-between :
    (c : ℕ)
    → 0x800 ≤ c
    → c < 0x10000
    → ((c < 0xD800) ⊎ (0xDFFF < c))
    → between (low3 c) (high3 c) (0x80 + c / 64 % 64) ≡ true
unfolding low3 high3
low3-between c l u (inl s) = ground arith
low3-between c l u (inr s) = ground arith

three :
    (c : ℕ) (r : Bytes)
    → 0x800 ≤ c
    → c < 0x10000
    → ((c < 0xD800) ⊎ (0xDFFF < c))
    → from_utf8 ((0xE0 + c / 4096) ∷ (0x80 + c / 64 % 64) ∷ (0x80 + c % 64) ∷ r)
      ≡ push_char c (from_utf8 r)
three c r l u s =
    led _ 2 (low3 c) (high3 c) (c / 4096) _ (lead_three c l u)
    ∙ taken 1 (low3 c) (high3 c) (c / 4096) _ _ (low3-between c l u s)
    ∙ taken 0 0x80 0xBF _ _ r (ground arith)
    ∙ pushed 0x80 0xBF _ r
    ∙ ap (λ x. push_char x (from_utf8 r)) (omega arith)

-- The range of the second byte of four.
low4 : ℕ → ℕ
low4 c = if ltb c 0x40000 then 0x90 else 0x80

high4 : ℕ → ℕ
high4 c = if (c / 262144) == 4 then 0x8F else 0xBF

lead_four :
    (c : ℕ)
    → 0x10000 ≤ c
    → c < 0x110000
    → lead (0xF0 + c / 262144) ≡ some (3, low4 c, high4 c, c / 262144)
unfolding lead low4 high4
lead_four c l u = ground arith

low4-between :
    (c : ℕ) → 0x10000 ≤ c → c < 0x110000 → between (low4 c) (high4 c) (0x80 + c / 4096 % 64) ≡ true
unfolding low4 high4
low4-between c l u = ground arith

four :
    (c : ℕ) (r : Bytes)
    → 0x10000 ≤ c
    → c < 0x110000
    → from_utf8
        ((0xF0 + c / 262144) ∷ (0x80 + c / 4096 % 64) ∷ (0x80 + c / 64 % 64) ∷ (0x80 + c % 64) ∷ r)
      ≡ push_char c (from_utf8 r)
four c r l u =
    led _ 3 (low4 c) (high4 c) (c / 262144) _ (lead_four c l u)
    ∙ taken 2 (low4 c) (high4 c) (c / 262144) _ _ (low4-between c l u)
    ∙ taken 1 0x80 0xBF _ _ _ (ground arith)
    ∙ taken 0 0x80 0xBF _ _ r (ground arith)
    ∙ pushed 0x80 0xBF _ r
    ∙ ap (λ x. push_char x (from_utf8 r)) (omega arith)

one : (c : ℕ) (r : Bytes) → c < 0x80 → from_utf8 (c ∷ r) ≡ push_char c (from_utf8 r)
one c r h = led c 0 0 0 c r (unfold lead in ground arith) ∙ pushed 0 0 c r

from_utf8-char :
    (c : ℕ) (r : Bytes) → IsChar c → from_utf8 (utf8_char c ++ r) ≡ push_char c (from_utf8 r)
unfolding utf8_char
from_utf8-char c r h = elim (Bool-cases (ltb c 0x80)) [
  | inl e ↦ rw e (one c r (ground arith))
  | inr e ↦ elim (Bool-cases (ltb c 0x800)) [
    | inl f ↦ rw (e, f) (two c r (ground arith) (ground arith))
    | inr f ↦ elim (Bool-cases (ltb c 0x10000)) [
      | inl g ↦ rw (e, f, g) (three c r (ground arith) (ground arith) h.1)
      | inr g ↦ rw (e, f, g) (four c r (ground arith) h.0)
    ]
  ]
]

pub from_utf8-utf8 : (s : Text) → All IsChar s → from_utf8 (utf8 s) ≡ some s
unfolding utf8
from_utf8-utf8 [] h = unfold from_utf8 in refl
from_utf8-utf8 (c ∷ s) h =
    from_utf8-char c (utf8 s) h.0
    ∙ ap (push_char c) (from_utf8-utf8 s h.1)
    ∙ unfold push_char in refl

utf8_char-bytes : (c : ℕ) → IsChar c → All (λ b. b < 256) (utf8_char c)
unfolding utf8_char
utf8_char-bytes c h = ground arith

pub utf8-bytes : (s : Text) → All IsChar s → All (λ b. b < 256) (utf8 s)
unfolding utf8
utf8-bytes [] h = tt
utf8-bytes (c ∷ s) h =
    All-append (λ b. b < 256) (utf8_char c) (utf8 s) (utf8_char-bytes c h.0) (utf8-bytes s h.1)
