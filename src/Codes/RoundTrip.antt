-- ===== src/Codes/RoundTrip.antt =====
-- node.rs and relay.rs: a code that was made is read back.
use agora_protocol.Base.{none}
use agora_protocol.Base.{
  ℕ, ◌≡◌, refl, subst, true, false, [], ◌∷◌, ◌++◌, some, Text, Bytes, length, length-append, take,
  take-append, drop, drop-append, mem, is_whitespace, lower, to_lowercase, to_uppercase, All,
  All-append, All-imp, all→All, arith, ◌==◌, all, not, Option, Bool-cases, strip_prefix, inl, trim,
  length-take, ◌∙◌, inr,
}
use agora_protocol.Base.TextLaws.{trim_id, strip_prefix-append, split_once-append}
use agora_protocol.Base.Result.{ok, eq_of_ok}
use agora_protocol.Config.Keys.{
  Base32, is_base32, to_uppercase-to_lowercase, to_lowercase-not_whitespace,
}
use agora_protocol.Codes.{
  invite_prefix, code_prefix, key_and_secret, encode_invite, decode_invite, relay_code, decode_code,
  decode_body, or_else, former_prefix,
}

abbrev IsSolid : Text → Type 0
IsSolid s = All (λ c. is_whitespace c ≡ false) s

pub solid : (s : Text) → all (λ c. not (is_whitespace c)) s ≡ true → IsSolid s
solid s h = All-imp _ _ s (λ c e. ground arith) (all→All (λ c. not (is_whitespace c)) s h)

key_and_secret-append :
    (key secret : Bytes)
    → length key ≡ 32
    → length secret ≡ 16
    → key_and_secret (some (key ++ secret)) ≡ ok (key, secret)
unfolding key_and_secret
key_and_secret-append key secret h k =
    let n : (length (key ++ secret) == 48) ≡ true = ground (arith, length-append key secret) in
    let t : take 32 (key ++ secret) ≡ key =
      subst (λ m. take m (key ++ secret) ≡ key) h (take-append key secret) in
    let d : drop 32 (key ++ secret) ≡ secret =
      subst (λ m. drop m (key ++ secret) ≡ secret) h (drop-append key secret) in
    rw (n, t, d) refl

key_and_secret-length :
    (o : Option Bytes) (k : Bytes × Bytes) → key_and_secret o ≡ ok k → length k.0 ≡ 32
unfolding key_and_secret
key_and_secret-length none k h = absurd (cc)
key_and_secret-length (some b) k h = elim (Bool-cases (length b == 48)) [
  | inl e ↦
      subst (λ (x : Bytes × Bytes). length x.0 ≡ 32) (eq_of_ok _ k (rw e at h))
        (length-take 32 b ∙ ground (arith, e))
  | inr e ↦ absurd (cc (rw e at h))
]

decode_body-length :
    (base32 : Base32) (o : Option Text) (k : Bytes × Bytes)
    → decode_body base32 o ≡ ok k
    → length k.0 ≡ 32
unfolding decode_body
decode_body-length base32 none k h = absurd (cc)
decode_body-length base32 (some body) k h =
    key_and_secret-length (base32.decode (to_uppercase body)) k h

-- The key of an invitation that is read has 32 bytes.
pub decode_invite-length :
    (base32 : Base32) (code : Text) (k : Bytes × Bytes)
    → decode_invite base32 code ≡ ok k
    → length k.0 ≡ 32
unfolding decode_invite
decode_invite-length base32 code k h =
    decode_body-length base32
      (or_else (strip_prefix invite_prefix (trim code)) (strip_prefix former_prefix (trim code))) k
      h

lower-ne_at : (c : ℕ) → is_base32 c ≡ true → (lower c == b'@') ≡ false
unfolding lower
lower-ne_at c h = ground arith

to_lowercase-ne_at :
    (s : Text) → All (λ c. is_base32 c ≡ true) s → All (λ c. (c == b'@') ≡ false) (to_lowercase s)
unfolding to_lowercase
to_lowercase-ne_at [] h = tt
to_lowercase-ne_at (c ∷ s) h = (lower-ne_at c h.0, to_lowercase-ne_at s h.1)

module _ (base32 : Base32) where
  read_body :
      (key secret : Bytes)
      → length key ≡ 32
      → length secret ≡ 16
      → key_and_secret (base32.decode (to_uppercase (to_lowercase (base32.encode (key ++ secret)))))
        ≡ ok (key, secret)
  read_body key secret h k =
      rw
        (
          to_uppercase-to_lowercase _ (base32.alphabet (key ++ secret)),
          base32.decode-encode (key ++ secret),
        )
        (key_and_secret-append key secret h k)

  encode_invite-IsSolid : (key secret : Bytes) → IsSolid (encode_invite base32 key secret)
  unfolding encode_invite is_whitespace
  encode_invite-IsSolid key secret =
      All-append _ invite_prefix _ (solid invite_prefix refl)
        (to_lowercase-not_whitespace _ (base32.alphabet (key ++ secret)))

  relay_code-IsSolid :
      (addr : Text) (key secret : Bytes)
      → IsSolid addr
      → IsSolid (code_prefix ++ (to_lowercase (base32.encode (key ++ secret)) ++ b'@' ∷ addr))
  unfolding is_whitespace
  relay_code-IsSolid addr key secret h = All-append _ code_prefix _ (solid code_prefix refl) (
      All-append _ _ (b'@' ∷ addr) (to_lowercase-not_whitespace _ (base32.alphabet (key ++ secret)))
        (refl, h))

  -- An invitation for any key of 32 bytes and secret of 16 bytes is read back.
  pub decode_invite-encode_invite :
      (key secret : Bytes)
      → length key ≡ 32
      → length secret ≡ 16
      → decode_invite base32 (encode_invite base32 key secret) ≡ ok (key, secret)
  unfolding decode_invite encode_invite
  decode_invite-encode_invite key secret h k = rw (trim_id _ (encode_invite-IsSolid key secret)) (
      rw (strip_prefix-append invite_prefix (to_lowercase (base32.encode (key ++ secret))))
        (read_body key secret h k))

  -- A relay's code for an address with a colon and no white space, any key of 32 bytes and any secret
  -- of 16 bytes is read back.
  pub decode_code-relay_code :
      (addr : Text) (key secret : Bytes)
      → length key ≡ 32
      → length secret ≡ 16
      → mem b':' addr ≡ true
      → IsSolid addr
      → decode_code base32 (relay_code base32 addr key secret) ≡ ok (addr, key, secret)
  unfolding decode_code relay_code
  decode_code-relay_code addr key secret h k colon white =
      let body = to_lowercase (base32.encode (key ++ secret)) in
      rw (trim_id _ (relay_code-IsSolid addr key secret white)) (
        rw (strip_prefix-append code_prefix (body ++ b'@' ∷ addr)) (
          rw
            (split_once-append b'@' body addr
              (to_lowercase-ne_at _ (base32.alphabet (key ++ secret))))
            (rw (read_body key secret h k, colon) refl)))
