-- ===== src/Config/Keys.antt =====
-- config.rs: keys of machines as text. The base 32 encoding is another package's: the model takes it
-- with what its documentation says, that decoding undoes encoding and that the code has the letters
-- A to Z and the digits 2 to 7.
use agora_protocol.Base.{
  ℕ, ◌≡◌, refl, Bool, true, false, ◌||◌, [], ◌∷◌, Option, none, some, Text, Bytes, is_upper,
  between, length, All, trim, is_whitespace, to_lowercase, to_uppercase, lower, upper, arith, ◌==◌,
  if◌then◌else◌, Bool-cases, inl, subst, inr,
}
use agora_protocol.Base.Result.{eq_of_ok, Result, ok, err}
use agora_protocol.Base.TextLaws.{trim_id}

abbrev pub is_base32 : ℕ → Bool
is_base32 c = is_upper c || between b'2' b'7' c

-- `BASE32_NOPAD`
pub record Base32 : Type 0 where
  pub encode : Bytes → Text
  pub decode : Text → Option Bytes
  pub decode-encode : (b : Bytes) → decode (encode b) ≡ some b
  pub alphabet : (b : Bytes) → All (λ c. is_base32 c ≡ true) (encode b)

pub data KeyError : Type 0 where
  malformed_key wrong_length : KeyError

abbrev pub key_length : ℕ
key_length = 32

sized : Option Bytes → Result KeyError Bytes
sized none = err malformed_key
sized (some v) = if length v == key_length then ok v else err wrong_length

module _ (base32 : Base32) where
  unfoldable pub encode_key : Bytes → Text
  encode_key k = to_lowercase (base32.encode k)

  unfoldable pub decode_key : Text → Result KeyError Bytes
  unfolding sized
  decode_key s = sized (base32.decode (to_uppercase (trim s)))

upper-lower : (c : ℕ) → is_base32 c ≡ true → upper (lower c) ≡ c
unfolding upper lower
upper-lower c h = ground arith

pub to_uppercase-to_lowercase :
    (s : Text) → All (λ c. is_base32 c ≡ true) s → to_uppercase (to_lowercase s) ≡ s
unfolding to_uppercase to_lowercase
to_uppercase-to_lowercase [] h = refl
to_uppercase-to_lowercase (c ∷ s) h = cc (upper-lower c h.0, to_uppercase-to_lowercase s h.1)

lower-not_whitespace : (c : ℕ) → is_base32 c ≡ true → is_whitespace (lower c) ≡ false
unfolding lower is_whitespace
lower-not_whitespace c h = ground arith

pub to_lowercase-not_whitespace :
    (s : Text)
    → All (λ c. is_base32 c ≡ true) s
    → All (λ c. is_whitespace c ≡ false) (to_lowercase s)
unfolding to_lowercase
to_lowercase-not_whitespace [] h = tt
to_lowercase-not_whitespace (c ∷ s) h =
    (lower-not_whitespace c h.0, to_lowercase-not_whitespace s h.1)

-- A key of 32 bytes is read back from its text.
pub decode_key-encode_key :
    (base32 : Base32) (k : Bytes)
    → length k ≡ key_length
    → decode_key base32 (encode_key base32 k) ≡ ok k
unfolding decode_key encode_key sized
decode_key-encode_key base32 k h =
    rw (trim_id _ (to_lowercase-not_whitespace _ (base32.alphabet k))) (
      rw (to_uppercase-to_lowercase _ (base32.alphabet k))
        (rw (base32.decode-encode k) (ground arith)))

sized-length : (o : Option Bytes) (k : Bytes) → sized o ≡ ok k → length k ≡ key_length
unfolding sized
sized-length none k h = absurd (cc)
sized-length (some v) k h = elim (Bool-cases (length v == key_length)) [
  | inl e ↦ subst (λ x. length x ≡ key_length) (eq_of_ok v k (rw e at h)) (ground (arith, e))
  | inr e ↦ absurd (cc (rw e at h))
]

-- A key that can be read has 32 bytes.
pub decode_key-length :
    (base32 : Base32) (s : Text) (k : Bytes) → decode_key base32 s ≡ ok k → length k ≡ key_length
unfolding decode_key
decode_key-length base32 s k h = sized-length (base32.decode (to_uppercase (trim s))) k h
