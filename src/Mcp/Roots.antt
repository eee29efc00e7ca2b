-- ===== src/Mcp/Roots.antt =====
-- mcp.rs: the folder that a client has open, as a path.
pub mod RoundTrip
use mathlib.Core.Option
use agora_protocol.Base.{
  ℕ, zero, suc, ◌+◌, ◌-◌, ◌*◌, Bool, true, false, ◌&&◌, [], ◌∷◌, Option, none, some, Text, Bytes,
  codes, strip_prefix, drop, between, ◌==◌, if◌then◌else◌,
}
use agora_protocol.Base.Utf8.{utf8, from_utf8}

-- The digit of `from_str_radix` with radix 16.
unfoldable pub hex_digit : ℕ → Option ℕ
hex_digit c =
    if between b'0' b'9' c
    then some (c - b'0')
    else if between b'a' b'f' c
    then some (c - b'a' + 10)
    else if between b'A' b'F' c
    then some (c - b'A' + 10)
    else none

two_digits : Option ℕ → Option ℕ → Option ℕ
two_digits (some a) (some b) = some (a * 16 + b)
two_digits _ _ = none

-- `u8::from_str_radix(h, 16)` of two bytes: it takes a leading `+`.
unfoldable pub hex_byte : ℕ → ℕ → Option ℕ
unfolding hex_digit two_digits
hex_byte a b = if a == b'+' then hex_digit b else two_digits (hex_digit a) (hex_digit b)

-- The byte that an escape at this place stands for.
unfoldable pub escaped : Bytes → Option ℕ
unfolding hex_byte
escaped (p ∷ a ∷ b ∷ r) = if p == b'%' then hex_byte a b else none
escaped _ = none

-- The loop; the number says how many bytes of an escape are still to be passed over.
unfoldable pub unescape : ℕ → Bytes → Bytes
unfolding escaped
unescape n [] = []
unescape (suc n) (b ∷ r) = unescape n r
unescape zero (b ∷ r) = elim (escaped (b ∷ r)) [
  | none ↦ b ∷ unescape 0 r
  | some byte ↦ byte ∷ unescape 2 r
]

unfoldable pub is_drive : Bytes → Bool
is_drive (a ∷ b ∷ c ∷ r) = a == b'/' && c == b':'
is_drive _ = false

-- `/c:/x` is `c:/x`.
unfoldable pub without_slash : Text → Text
unfolding is_drive
without_slash s = if is_drive (utf8 s) then drop 1 s else s

unfoldable pub file_uri_to_path : Text → Option Text
unfolding unescape without_slash
file_uri_to_path uri = elim (strip_prefix (codes "file://") uri) [
  | none ↦ none
  | some rest ↦ Option.map without_slash (from_utf8 (unescape 0 (utf8 rest)))
]
