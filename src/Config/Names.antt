-- ===== src/Config/Names.antt =====
-- config.rs: `valid_name`, the form of every agent, machine, message and thread name.
use agora_protocol.Base.{
  ℕ, ◌≤◌, ◌<◌, ◌≡◌, Bool, true, false, ◌&&◌, ◌||◌, not, [], ◌∷◌, Text, length, byte_len, utf8_width,
  all, All, is_alphanumeric, is_empty, leb, leb→le, arith, all→All, ◌==◌,
}

-- One of the bytes that a name may have. Every byte of a character from 128 on is 128 or more, so a
-- test of the characters is the test of the bytes.
unfoldable pub is_name_char : ℕ → Bool
is_name_char b = is_alphanumeric b || (b == b'-' || b == b'_' || b == b'.')

unfoldable pub valid_name : Text → Bool
valid_name s =
    not (is_empty s) && leb (byte_len s) 64 && all is_name_char s && not (all (λ b. b == b'.') s)

-- The reading of `valid_name` as a predicate.
pub record IsName (s : Text) : Type 0 where
  pub nonempty : 0 < length s
  pub short : byte_len s ≤ 64
  pub chars : All (λ b. is_name_char b ≡ true) s
  pub not_dots : all (λ b. b == b'.') s ≡ false

is_empty-length : (s : Text) → is_empty s ≡ false → 0 < length s
is_empty-length [] h = absurd (ground arith)
is_empty-length (c ∷ s) h = omega arith

split_tests :
    (a b c d : Bool)
    → (not a && b && c && not d) ≡ true
    → (a ≡ false) × (b ≡ true) × (c ≡ true) × (d ≡ false)
split_tests a b c d h = (ground arith, ground arith, ground arith, ground arith)

pub valid_name-IsName : (s : Text) → valid_name s ≡ true → IsName s
unfolding valid_name
valid_name-IsName s h =
    let t =
      split_tests (is_empty s) (leb (byte_len s) 64) (all is_name_char s) (all (λ b. b == b'.') s)
        h in
    record {
      nonempty = is_empty-length s t.0;
      short = leb→le (byte_len s) 64 t.1;
      chars = all→All is_name_char s t.2;
      not_dots = t.3;
    }

-- The length in characters is never more than the length in bytes.
pub length-le-byte_len : (s : Text) → length s ≤ byte_len s
unfolding byte_len utf8_width
length-le-byte_len [] = omega arith
length-le-byte_len (c ∷ s) = ground (arith, length-le-byte_len s)

-- A name has no `@` and no slash.
pub name_char-ne_at : (c : ℕ) → is_name_char c ≡ true → (c == b'@') ≡ false
unfolding is_name_char is_alphanumeric
name_char-ne_at c h = ground arith

pub name_char-ne_slash : (c : ℕ) → is_name_char c ≡ true → (c == b'/') ≡ false
unfolding is_name_char is_alphanumeric
name_char-ne_slash c h = ground arith
