-- ===== src/Tests/Config.antt =====
-- Names, keys, peers and the lock file at concrete inputs.
use agora_protocol.Base.{
  ◌≡◌, refl, true, false, [], ◌∷◌, codes, is_whitespace, is_alphanumeric, byte_len, to_uppercase,
  trim, All,
}
use agora_protocol.Base.Result.{ok}
use agora_protocol.Config.Names.{valid_name, is_name_char}
use agora_protocol.Config.Keys.{decode_key}
use agora_protocol.Config.Peers.{check_peers}
use agora_protocol.Tests.Values.{coding, read_unary, laptop}

loaded : check_peers coding (laptop ∷ []) ≡ ok tt
unfolding check_peers decode_key read_unary valid_name byte_len is_name_char is_alphanumeric
    to_uppercase trim
loaded = refl

mill_not_whitespace : All (λ c. is_whitespace c ≡ false) (codes "mill")
unfolding is_whitespace
mill_not_whitespace = (refl, (refl, (refl, (refl, tt))))

laptop_valid : valid_name (codes "laptop") ≡ true
unfolding valid_name byte_len is_name_char is_alphanumeric
laptop_valid = refl
