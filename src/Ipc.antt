-- ===== src/Ipc.antt =====
-- ipc.rs and node.rs: the local connection between an agent's process and the node. `mac` proves that
-- its caller knows the token of the machine; the keyed BLAKE2s of package blake2 and the base 16 of
-- package data-encoding are arguments.
pub mod Proofs
pub mod Hello
pub mod Calls
pub mod Served
use agora_protocol.Base.{
  ◌<◌, All, ◌≡◌, List, [], ◌∷◌, ◌++◌, Option, none, some, Text, Bytes, length,
}
use agora_protocol.Base.Utf8.{utf8}
use agora_protocol.Wire.{u32_bytes}

-- `HEXLOWER`: decoding undoes encoding, and the code is ASCII.
pub record Hex : Type 0 where
  pub encode : Bytes → Text
  pub decode : Text → Option Bytes
  pub decode-encode : (b : Bytes) → decode (encode b) ≡ some b
  pub ascii : (b : Bytes) → All (λ c. c < 128) (encode b)

-- The bytes that `mac` hashes: each part behind its length as a `u32`.
unfoldable pub mac_input : List Text → Bytes
mac_input [] = []
mac_input (p ∷ ps) = u32_bytes (length (utf8 p)) ++ utf8 p ++ mac_input ps

-- `decode(..).unwrap_or_default()`
unfoldable pub key_of : Option Bytes → Bytes
key_of none = []
key_of (some k) = k

module _ (hex : Hex) (keyed : Bytes → Bytes → Bytes) where
  unfoldable pub mac : Text → List Text → Text
  unfolding mac_input key_of
  mac token parts = hex.encode (keyed (key_of (hex.decode token)) (mac_input parts))
