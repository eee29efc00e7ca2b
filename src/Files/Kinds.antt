-- ===== src/Files/Kinds.antt =====
-- files.rs: the kinds of content, found by the first bytes and by UTF-8.
pub mod Laws
use agora_protocol.Base.{
  ℕ, zero, suc, Bool, true, false, ◌&&◌, ◌||◌, not, List, [], ◌∷◌, Option, none, some, any, Bytes,
  Text, codes, starts_with, mem, drop, between, ltb, ◌==◌, if◌then◌else◌,
}

pub data Kind : Type 0 where
  text data_file container executable unknown : Kind

-- `Kind::label`
unfoldable pub label : Kind → Text
label text = codes "text"
label data_file = codes "data"
label container = codes "document/archive"
label executable = codes "executable"
label unknown = codes "unknown binary"

-- `exe`
abbrev pub executable_magic : List Bytes
executable_magic =
    codes "MZ"
    ∷ (0x7f ∷ codes "ELF")
    ∷ (0xfe ∷ 0xed ∷ 0xfa ∷ 0xce ∷ [])
    ∷ (0xfe ∷ 0xed ∷ 0xfa ∷ 0xcf ∷ [])
    ∷ (0xce ∷ 0xfa ∷ 0xed ∷ 0xfe ∷ [])
    ∷ (0xcf ∷ 0xfa ∷ 0xed ∷ 0xfe ∷ [])
    ∷ (0xca ∷ 0xfe ∷ 0xba ∷ 0xbe ∷ [])
    ∷ (0x4c ∷ 0 ∷ 0 ∷ 0 ∷ 1 ∷ 0x14 ∷ 2 ∷ 0 ∷ [])
    ∷ (0 ∷ codes "asm")
    ∷ []

-- `container`
abbrev pub container_magic : List Bytes
container_magic =
    codes "%PDF"
    ∷ (b'P' ∷ b'K' ∷ 3 ∷ 4 ∷ [])
    ∷ (b'P' ∷ b'K' ∷ 5 ∷ 6 ∷ [])
    ∷ (0xd0 ∷ 0xcf ∷ 0x11 ∷ 0xe0 ∷ [])
    ∷ (0x1f ∷ 0x8b ∷ [])
    ∷ (b'7' ∷ b'z' ∷ 0xbc ∷ 0xaf ∷ 0x27 ∷ 0x1c ∷ [])
    ∷ codes "Rar!"
    ∷ codes "BZh"
    ∷ (0xfd ∷ codes "7zXZ")
    ∷ (0x28 ∷ 0xb5 ∷ 0x2f ∷ 0xfd ∷ [])
    ∷ (0x7b ∷ 0x5c ∷ codes "rtf")
    ∷ codes "MSCF"
    ∷ []

-- `data`
abbrev pub data_magic : List Bytes
data_magic =
    (0x89 ∷ codes "PNG")
    ∷ (0xff ∷ 0xd8 ∷ 0xff ∷ [])
    ∷ codes "GIF87a"
    ∷ codes "GIF89a"
    ∷ (0x89 ∷ b'H' ∷ b'D' ∷ b'F' ∷ 13 ∷ 10 ∷ 0x1a ∷ 10 ∷ [])
    ∷ (b'C' ∷ b'D' ∷ b'F' ∷ 1 ∷ [])
    ∷ (b'C' ∷ b'D' ∷ b'F' ∷ 2 ∷ [])
    ∷ (0x93 ∷ codes "NUMPY")
    ∷ (b'I' ∷ b'I' ∷ b'*' ∷ 0 ∷ [])
    ∷ (b'M' ∷ b'M' ∷ 0 ∷ b'*' ∷ [])
    ∷ codes "%!PS"
    ∷ []

-- `b.get(lo..lo + n) == Some(m)` for an `m` of `n` bytes.
unfoldable pub has_at : ℕ → Bytes → Bytes → Bool
has_at lo m b = starts_with m (drop lo b)

-- What a lead byte asks of the bytes behind it: how many, and the range of the first of them.
unfoldable pub lead : ℕ → Option (ℕ × ℕ × ℕ)
lead b =
    if ltb b 0x80
    then some (0, 0, 0)
    else if between 0xC2 0xDF b
    then some (1, 0x80, 0xBF)
    else if b == 0xE0
    then some (2, 0xA0, 0xBF)
    else if b == 0xED
    then some (2, 0x80, 0x9F)
    else if between 0xE1 0xEF b
    then some (2, 0x80, 0xBF)
    else if b == 0xF0
    then some (3, 0x90, 0xBF)
    else if between 0xF1 0xF3 b
    then some (3, 0x80, 0xBF)
    else if b == 0xF4
    then some (3, 0x80, 0x8F)
    else none

utf8_from : ℕ → ℕ → ℕ → Bytes → Bool
unfolding lead
utf8_from zero lo hi [] = true
utf8_from (suc n) lo hi [] = false
utf8_from zero lo hi (b ∷ r) = elim (lead b) [ none ↦ false | some (n, l, h) ↦ utf8_from n l h r ]
utf8_from (suc n) lo hi (b ∷ r) = between lo hi b && utf8_from n 0x80 0xBF r

-- `std::str::from_utf8(b).is_ok()`
unfoldable pub is_utf8 : Bytes → Bool
unfolding utf8_from
is_utf8 b = utf8_from 0 0 0 b

unfoldable pub has_magic : List Bytes → Bytes → Bool
has_magic ms b = any (λ m. starts_with m b) ms

unfoldable pub classify : Bytes → Kind
classify b =
    if has_magic executable_magic b
    then executable
    else if has_magic container_magic b || has_at 257 (codes "ustar") b
    then container
    else if has_magic data_magic b || (starts_with (codes "RIFF") b && has_at 8 (codes "WEBP") b)
    then data_file
    else if not (mem 0 b) && is_utf8 b
    then text
    else unknown
