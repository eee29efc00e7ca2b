-- ===== src/Config/Peers.antt =====
-- config.rs: the trusted machines and the test of a loaded configuration.
use agora_protocol.Base.{
  ◌≡◌, refl, Bool, true, false, not, inl, inr, List, [], ◌∷◌, Option, none, some, Text, Bytes,
  text_eq, find, All, Bool-cases, if◌then◌else◌,
}
use agora_protocol.Base.Result.{Result, ok, err, ◌>>=◌, >>=-eq-ok}
use agora_protocol.Config.Types.{Peer, Config}
use agora_protocol.Config.Names.{valid_name}
use agora_protocol.Config.Keys.{Base32, KeyError, decode_key}

pub data LoadError : Type 0 where
  invalid_peer_name : Text → LoadError
  bad_peer_key : Text → KeyError → LoadError

-- `decode_key(&p.key).is_ok_and(|k| &k == key)`
unfoldable pub key_is : Bytes → Result KeyError Bytes → Bool
key_is key (ok k) = text_eq k key
key_is key (err e) = false

-- `Config::peer`
unfoldable pub peer_named : Text → Config → Option Peer
peer_named name cfg = find (λ p. text_eq p.name name) cfg.peer

-- `cfg.peer(name).is_some()`
unfoldable pub has_peer : Text → Config → Bool
unfolding peer_named
has_peer name cfg = elim (peer_named name cfg) [ none ↦ false | some p ↦ true ]

module _ (base32 : Base32) where
  unfoldable pub peer_has_key : Bytes → Peer → Bool
  peer_has_key key p = key_is key (decode_key base32 p.key)

  -- `Config::peer_by_key`
  unfoldable pub peer_by_key : Bytes → Config → Option Peer
  unfolding peer_has_key
  peer_by_key key cfg = find (peer_has_key key) cfg.peer

  -- The configuration trusts this key under this name.
  unfoldable pub trusts : Text → Bytes → Config → Bool
  trusts name key cfg = elim (peer_named name cfg) [ none ↦ false | some p ↦ peer_has_key key p ]

  check_key : Text → Result KeyError Bytes → Result LoadError (Unit {0})
  check_key name (ok k) = ok tt
  check_key name (err e) = err (bad_peer_key name e)

  -- The loop of `load` over the peers of the parsed file.
  unfoldable pub check_peers : List Peer → Result LoadError (Unit {0})
  unfolding check_key
  check_peers [] = ok tt
  check_peers (p ∷ ps) =
      let rest = check_peers ps in
      if not (valid_name p.name)
      then err (invalid_peer_name p.name)
      else check_key p.name (decode_key base32 p.key) >>= λ _. rest

  -- What `load` checks of every peer.
  abbrev pub IsLoadable : Peer → Type 0
  IsLoadable p = (valid_name p.name ≡ true) × ((k : Bytes) × (decode_key base32 p.key ≡ ok k))

  check_key-ok :
      (name : Text) (r : Result KeyError Bytes)
      → check_key name r ≡ ok tt
      → (k : Bytes) × (r ≡ ok k)
  unfolding check_key
  check_key-ok name (ok k) h = (k, refl)
  check_key-ok name (err e) h = absurd (cc)

  -- A configuration is accepted only if every peer has a valid name and a key that can be read.
  pub check_peers-IsLoadable : (ps : List Peer) → check_peers ps ≡ ok tt → All IsLoadable ps
  unfolding check_peers
  check_peers-IsLoadable [] h = tt
  check_peers-IsLoadable (p ∷ ps) h = elim (Bool-cases (valid_name p.name)) [
    | inr e ↦ absurd (cc (rw e at h))
    | inl e ↦
        let g : (check_key p.name (decode_key base32 p.key) >>= λ _. check_peers ps) ≡ ok tt =
          rw e at h in
        let first =
          >>=-eq-ok (check_key p.name (decode_key base32 p.key)) (λ _. check_peers ps) g in
        (
          (e, check_key-ok p.name (decode_key base32 p.key) first.1),
          check_peers-IsLoadable ps first.2,
        )
  ]
