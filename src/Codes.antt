-- ===== src/Codes.antt =====
-- node.rs and relay.rs: one-time codes, which carry a key and a secret as text. The base 32 encoding is
-- the one of `Config.Keys`.
pub mod RoundTrip
use agora_protocol.Base.{
  ℕ, Bool, true, false, ◌||◌, not, List, [], ◌∷◌, ◌++◌, Option, none, some, Text, Bytes, codes,
  length, take, drop, mem, trim, strip_prefix, split_once, to_lowercase, to_uppercase, ◌==◌,
  if◌then◌else◌,
}
use agora_protocol.Base.Result.{Result, ok, err}
use agora_protocol.Config.Keys.{Base32}

pub data CodeError : Type 0 where
  not_a_code malformed_code : CodeError

-- `INVITE_PREFIX`, the prefix of the former version, and `CODE_PREFIX`.
abbrev pub invite_prefix : Text
invite_prefix = codes "agentcourier-"

abbrev pub former_prefix : Text
former_prefix = codes "agentwire-"

abbrev pub code_prefix : Text
code_prefix = codes "agentcourier-relay-"

-- The key has 32 bytes and the secret 16.
unfoldable pub key_and_secret : Option Bytes → Result CodeError (Bytes × Bytes)
key_and_secret none = err malformed_code
key_and_secret (some b) = if length b == 48 then ok (take 32 b, drop 32 b) else err malformed_code

abbrev or_else : Option Text → Option Text → Option Text
or_else none b = b
or_else (some a) b = some a

module _ (base32 : Base32) where
  unfoldable pub encode_invite : Bytes → Bytes → Text
  encode_invite key secret = invite_prefix ++ to_lowercase (base32.encode (key ++ secret))

  decode_body : Option Text → Result CodeError (Bytes × Bytes)
  decode_body none = err not_a_code
  decode_body (some body) = key_and_secret (base32.decode (to_uppercase body))

  unfoldable pub decode_invite : Text → Result CodeError (Bytes × Bytes)
  unfolding decode_body
  decode_invite code =
      decode_body
        (or_else (strip_prefix invite_prefix (trim code)) (strip_prefix former_prefix (trim code)))

  -- What the relay's `invite` returns.
  unfoldable pub relay_code : Text → Bytes → Bytes → Text
  relay_code addr key secret =
      code_prefix ++ (to_lowercase (base32.encode (key ++ secret)) ++ b'@' ∷ addr)

  with_addr : Text → Result CodeError (Bytes × Bytes) → Result CodeError (Text × Bytes × Bytes)
  with_addr addr (err e) = err e
  with_addr addr (ok (key, secret)) =
      if mem b':' addr then ok (addr, key, secret) else err malformed_code

  decode_parts : Option (Text × Text) → Result CodeError (Text × Bytes × Bytes)
  unfolding with_addr
  decode_parts none = err malformed_code
  decode_parts (some (body, addr)) =
      with_addr addr (key_and_secret (base32.decode (to_uppercase body)))

  decode_rest : Option Text → Result CodeError (Text × Bytes × Bytes)
  unfolding decode_parts
  decode_rest none = err not_a_code
  decode_rest (some rest) = decode_parts (split_once b'@' rest)

  -- The relay's `decode_code`.
  unfoldable pub decode_code : Text → Result CodeError (Text × Bytes × Bytes)
  unfolding decode_rest
  decode_code code = decode_rest (strip_prefix code_prefix (trim code))
