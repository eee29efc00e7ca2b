-- ===== src/Base/Utf8.antt =====
-- `str::as_bytes` and `String::from_utf8` of the standard library.
pub mod RoundTrip
use Prim.Native.Nat.{ℕ, zero, suc, ◌+◌, ◌-◌, ◌*◌, ◌/◌, ◌%◌}
use mathlib.Core.Bool.{Bool, true, false, ◌&&◌}
use mathlib.Core.List.{List, [], ◌∷◌, ◌++◌}
use mathlib.Core.Option.{Option, none, some}
use agora_protocol.Base.Tests.{ltb, between, if◌then◌else◌, ◌==◌}
use agora_protocol.Base.Strings.{Text, Bytes}

abbrev tail_byte : ℕ → ℕ
tail_byte n = 0x80 + n % 64

unfoldable pub utf8_char : ℕ → Bytes
utf8_char c =
    if ltb c 0x80
    then c ∷ []
    else if ltb c 0x800
    then (0xC0 + c / 64) ∷ tail_byte c ∷ []
    else if ltb c 0x10000
    then (0xE0 + c / 4096) ∷ tail_byte (c / 64) ∷ tail_byte c ∷ []
    else (0xF0 + c / 262144) ∷ tail_byte (c / 4096) ∷ tail_byte (c / 64) ∷ tail_byte c ∷ []

unfoldable pub utf8 : Text → Bytes
unfolding utf8_char
utf8 [] = []
utf8 (c ∷ s) = utf8_char c ++ utf8 s

-- What a lead byte asks of the bytes behind it: how many, the range of the first of them, and the
-- bits that it gives.
unfoldable pub lead : ℕ → Option (ℕ × ℕ × ℕ × ℕ)
lead b =
    if ltb b 0x80
    then some (0, 0, 0, b)
    else if between 0xC2 0xDF b
    then some (1, 0x80, 0xBF, b - 0xC0)
    else if b == 0xE0
    then some (2, 0xA0, 0xBF, 0)
    else if b == 0xED
    then some (2, 0x80, 0x9F, 13)
    else if between 0xE1 0xEF b
    then some (2, 0x80, 0xBF, b - 0xE0)
    else if b == 0xF0
    then some (3, 0x90, 0xBF, 0)
    else if between 0xF1 0xF3 b
    then some (3, 0x80, 0xBF, b - 0xF0)
    else if b == 0xF4
    then some (3, 0x80, 0x8F, 4)
    else none

push_char : ℕ → Option Text → Option Text
push_char c none = none
push_char c (some s) = some (c ∷ s)

-- The bytes that are still due, the range of the next one, and the bits read of the character.
unfoldable pub chars_from : ℕ → ℕ → ℕ → ℕ → Bytes → Option Text
unfolding lead push_char
chars_from zero lo hi c [] = some (c ∷ [])
chars_from (suc n) lo hi c [] = none
chars_from zero lo hi c (b ∷ r) = elim (lead b) [
  | none ↦ none
  | some (n, l, h, d) ↦ push_char c (chars_from n l h d r)
]
chars_from (suc n) lo hi c (b ∷ r) = elim (between lo hi b) [
  | false ↦ none
  | true ↦ chars_from n 0x80 0xBF (c * 64 + (b - 0x80)) r
]

unfoldable pub from_utf8 : Bytes → Option Text
unfolding chars_from lead
from_utf8 [] = some []
from_utf8 (b ∷ r) = elim (lead b) [ none ↦ none | some (n, l, h, d) ↦ chars_from n l h d r ]
