-- ===== src/Node/Admin.antt =====
-- node.rs: `admin`, the commands that change the configuration, and `apply` with the file that may not
-- be written. A request has the fields of the JSON value, with the empty text for a missing one.
pub mod TrustList
pub mod Rename
use agora_protocol.Base.{
  ℕ, ◌≡◌, Bool, true, false, not, ◌||◌, ◌&&◌, List, [], ◌∷◌, ◌++◌, Option, none, some, Text, Bytes,
  text_eq, length, take, retain, mem, trim, replace_chars, ◌==◌, if◌then◌else◌,
}
use agora_protocol.Base.Dict.{Dict, lookup, insert, remove}
use agora_protocol.Base.Result.{Result, ok, err, ◌>>=◌, bail_if, ok_or, ◌>>◌}
use agora_protocol.Config.Types.{Config, Peer}
use agora_protocol.Config.Names.{valid_name}
use agora_protocol.Config.Keys.{Base32, KeyError, encode_key, decode_key}
use agora_protocol.Config.Peers.{has_peer, peer_has_key}
use agora_protocol.Node.Types.{State, Msg}
use agora_protocol.Node.Trust.{apply}

-- The result of `load` comes with `reload`.
pub data Request : Type 0 where
  trust : Text → Text → Option Text → Request
  untrust : Text → Request
  set_files : Text → Bool → Request
  owner : Text → Request
  rename : Text → Text → Request
  reload : Option Config → Request
  other : Request

pub data AdminError : Type 0 where
  bad_key : KeyError → AdminError
  bad_name own_key no_port no_peer name_used not_loaded unsupported not_saved : AdminError

pub record Node : Type 0 where
  pub config : Config
  pub state : State

-- `iter_mut().find(…)` and a change of what it finds.
unfoldable pub update_peer : Text → (Peer → Peer) → List Peer → Option (List Peer)
update_peer name f [] = none
update_peer name f (p ∷ ps) =
    let rest = update_peer name f ps in
    if text_eq p.name name
    then some (f p ∷ ps)
    else elim rest [ none ↦ none | some qs ↦ some (p ∷ qs) ]

unfoldable pub change_peer : Text → (Peer → Peer) → Config → Result AdminError Config
change_peer name f cfg = elim (update_peer name f cfg.peer) [
  | none ↦ err no_peer
  | some ps ↦ ok (record cfg { peer = ps })
]

abbrev lacks_port : Option Text → Bool
lacks_port none = false
lacks_port (some a) = not (mem b':' a)

-- Characters of an owner's text that become spaces.
abbrev is_gap : ℕ → Bool
is_gap c = c == b'\n' || c == b'\t'

-- The text of an owner, cut to `n` characters; `sanitize` is the guard's.
unfoldable pub label : (Text → Text) → Text → ℕ → Text
label sanitize t n = take n (trim (replace_chars is_gap b' ' (sanitize t)))

-- `if let Some(v) = map.remove(old) { map.insert(new, v) }`
unfoldable pub move_key {ℓ} : {V : Type ℓ} → Text → Text → Dict V → Dict V
move_key old new m = elim (lookup old m) [ none ↦ m | some v ↦ insert new v (remove old m) ]

abbrev renamed : Text → Text → Text → Text
renamed old new p = if text_eq p old then new else p

unfoldable pub rename_unacked : Text → Text → Dict (Text × Msg) → Dict (Text × Msg)
rename_unacked old new [] = []
rename_unacked old new ((id, (p, m)) ∷ rest) =
    (id, (renamed old new p, m)) ∷ rename_unacked old new rest

unfoldable pub rename_waiters : Text → Text → Dict Text → Dict Text
rename_waiters old new [] = []
rename_waiters old new ((id, p) ∷ rest) = (id, renamed old new p) ∷ rename_waiters old new rest

-- What a command does to the state before `apply`.
unfoldable pub move_state : Request → State → State
move_state (rename old new) s = record s {
  outbox = move_key old new s.outbox;
  known = move_key old new s.known;
  buckets = move_key old new s.buckets;
  unacked = rename_unacked old new s.unacked;
  waiters = rename_waiters old new s.waiters;
}
move_state r s = s

module _ (base32 : Base32) where
  unfoldable pub trusting : Text → Bytes → Option Text → Config → Config
  trusting name key addr cfg = record cfg {
    peer =
        retain (λ x. not (text_eq x.name name) && not (peer_has_key base32 key x)) cfg.peer
        ++ (record { name = name; key = encode_key base32 key; addr = addr; files = true }) ∷ [];
  }

  -- `apply`: nothing changes when the file cannot be written.
  unfoldable pub saved_and_applied :
      Bool → Option Text → Config → Node → Result AdminError (Unit {0}) × Node
  saved_and_applied saved user cfg n =
      if saved
      then (ok tt, record { config = cfg; state = apply base32 cfg user n.state })
      else (err not_saved, n)

  module _ (my_key : Bytes) (sanitize : Text → Text) where
    trust_key : Text → Option Text → Config → Result KeyError Bytes → Result AdminError Config
    trust_key name addr cfg (err e) = err (bad_key e)
    trust_key name addr cfg (ok key) =
        bail_if (not (valid_name name)) bad_name
        >> (bail_if (text_eq key my_key) own_key
            >> (bail_if (lacks_port addr) no_port >> ok (trusting name key addr cfg)))

    -- What a command does to the configuration.
    unfoldable pub edit : Request → Config → Result AdminError Config
    unfolding trust_key
    edit (trust name t addr) cfg = trust_key name addr cfg (decode_key base32 t)
    edit (untrust name) cfg =
        let kept = retain (λ x. not (text_eq x.name name)) cfg.peer in
        bail_if (length kept == length cfg.peer) no_peer >> ok (record cfg { peer = kept })
    edit (set_files name on) cfg = change_peer name (λ p. record p { files = on }) cfg
    edit (owner t) cfg = ok (record cfg { owner = label sanitize t 80 })
    edit (rename old new) cfg =
        bail_if (not (valid_name new)) bad_name
        >> (bail_if (has_peer new cfg) name_used
            >> change_peer old (λ p. record p { name = new }) cfg)
    edit (reload loaded) cfg = ok_or loaded not_loaded
    edit other cfg = err unsupported

    -- `admin`; `saved` says whether the file could be written.
    unfoldable pub admin : Bool → Option Text → Request → Node → Result AdminError (Unit {0}) × Node
    admin saved user r n = elim (edit r n.config) [
      | err e ↦ (err e, n)
      | ok cfg ↦ saved_and_applied saved user cfg (record n { state = move_state r n.state })
    ]
