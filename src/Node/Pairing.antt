-- ===== src/Node/Pairing.antt =====
-- node.rs: how a machine becomes trusted: `incoming_conn`, `pairing`, `join` and `relay_join`, without
-- the waits for the network, whose answers are arguments. `hex` is `HEXLOWER` (package data-encoding).
pub mod OneTime
pub mod Checked
pub mod Trusted
pub mod Spent
use agora_protocol.Base.{
  ℕ, Bool, true, false, not, ◌||◌, List, [], ◌∷◌, ◌++◌, Option, none, some, Text, Bytes, codes,
  text_eq, mem, retain, ltb, if◌then◌else◌,
}
use agora_protocol.Base.Result.{Result, ok, err, ◌>>=◌, ◌>>◌, bail_if}
use agora_protocol.Config.Types.{Config, Peer, RelayLink}
use agora_protocol.Config.Names.{valid_name}
use agora_protocol.Config.Keys.{Base32, encode_key}
use agora_protocol.Config.Peers.{has_peer, peer_by_key}
use agora_protocol.Codes.{CodeError, decode_invite}
use agora_protocol.Node.Types.{State, Invite}
use agora_protocol.Node.Address.{ct_eq}
use agora_protocol.Node.Address.OneTime.{take_first}
use agora_protocol.Node.Trust.{note_refused, invites_open}
use agora_protocol.Node.Admin.{Node, AdminError, saved_and_applied}

-- What the handshake of an incoming connection came to.
pub data Handshake : Type 0 where
  failed : Handshake
  denied opened : Bytes → Handshake

-- What the first message of a machine that is not trusted is.
pub data First : Type 0 where
  no_message no_secret : First
  secret : Text → First

-- What a connection goes on with.
pub data Next : Type 0 where
  ended : Next
  link pair : Text → Next
  ask : Next

pub data JoinError : Type 0 where
  usage own_invite already_paired name_taken refused added_meanwhile not_written : JoinError
  bad_code : CodeError → JoinError

abbrev pub known_key : Option Peer → Bool
known_key none = false
known_key (some p) = true

abbrev name_of : Option Peer → Next
name_of none = ask
name_of (some p) = link p.name

abbrev pub after_apply : Text → Result AdminError (Unit {0}) × Node → Next × Node
after_apply name (err e, n) = (ended, n)
after_apply name (ok u, n) = (pair name, n)

abbrev pub joined_as : Result AdminError (Unit {0}) × Node → Result JoinError (Unit {0}) × Node
joined_as (err e, n) = (err not_written, n)
joined_as (ok u, n) = (ok tt, n)

read_code : Result CodeError (Bytes × Bytes) → Result JoinError (Bytes × Bytes)
read_code (err e) = err (bad_code e)
read_code (ok k) = ok k

module _ (base32 : Base32) where
  -- The test that `wire::respond` asks.
  unfoldable pub may_connect : Config → Bytes → ℕ → State → Bool
  may_connect cfg key now s = known_key (peer_by_key base32 key cfg) || (invites_open now s).0

  -- `incoming_conn`: a trusted machine gets its link, another one may pair.
  unfoldable pub incoming_conn : Handshake → Text → ℕ → Config → State → Next × State
  incoming_conn failed from now cfg s = (ended, s)
  incoming_conn (denied key) from now cfg s = (ended, note_refused base32 key from now s)
  incoming_conn (opened key) from now cfg s = (name_of (peer_by_key base32 key cfg), s)

  unfoldable pub with_machine : Text → Bytes → Option Text → Bool → Config → Config
  with_machine name key addr shared cfg = record cfg {
    peer =
        cfg.peer
        ++ (record { name = name; key = encode_key base32 key; addr = addr; files = shared }) ∷ [];
  }

  -- `cfg.peer(name).is_some() || cfg.peer_by_key(&key).is_some()`
  abbrev pub is_taken : Text → Bytes → Config → Bool
  is_taken name key cfg = has_peer name cfg || known_key (peer_by_key base32 key cfg)

  -- `pairing` with the invitation that the secret opened: `pair` if the machine is trusted now.
  unfoldable pub pair_by : Bool → Option Text → Bytes → Invite → Node → Next × Node
  pair_by saved user key inv n =
      if is_taken inv.name key n.config
      then (ended, n)
      else after_apply inv.name (
          saved_and_applied base32 saved user (with_machine inv.name key none inv.files n.config) n)

  unfoldable pub pair_with :
      Bool
      → Option Text
      → Bytes
      → Text
      → ℕ
      → Node
      → List Invite
      → Option (Invite × List Invite)
      → Next × Node
  pair_with saved user key from now n open_ones none = (
    ended,
    record n { state = note_refused base32 key from now (record n.state { invites = open_ones }) },
  )
  pair_with saved user key from now n open_ones (some (inv, others)) =
      pair_by saved user key inv (record n { state = record n.state { invites = others } })

  module _ (hex : Bytes → Text) where
    -- `now` is the time of the first message, for the invitations and the list of refused keys.
    unfoldable pub pairing : Bool → Option Text → Bytes → Text → ℕ → First → Node → Next × Node
    unfolding pair_with
    pairing saved user key from now no_message n = (ended, n)
    pairing saved user key from now no_secret n =
        (ended, record n { state = note_refused base32 key from now n.state })
    pairing saved user key from now (secret t) n =
        let open_ones = retain (λ i. ltb now i.expires) n.state.invites in
        pair_with saved user key from now n open_ones
          (take_first (λ i. ct_eq (hex i.secret) t) open_ones)

  -- `join` up to the connection: the key of the other machine and the secret for it.
  unfoldable pub join_start : Bytes → Text → Text → Text → Config → Result JoinError (Bytes × Bytes)
  unfolding read_code
  join_start my_key code name addr cfg =
      bail_if (not (valid_name name) || not (text_eq addr (codes "relay") || mem b':' addr)) usage
      >> (read_code (decode_invite base32 code) >>= λ k.
          bail_if (text_eq k.0 my_key) own_invite
          >> (bail_if (known_key (peer_by_key base32 k.0 cfg)) already_paired
              >> (bail_if (has_peer name cfg) name_taken >> ok k)))

  -- `join` from the answer on: the configuration may be another one than at the start.
  unfoldable pub join_end :
      Bool → Option Text → Bytes → Text → Text → Bool → Node → Result JoinError (Unit {0}) × Node
  join_end saved user key name addr welcome n =
      if not welcome
      then (err refused, n)
      else if is_taken name key n.config
      then (err added_meanwhile, n)
      else joined_as
          (saved_and_applied base32 saved user (with_machine name key (some addr) true n.config) n)

  -- `relay_join`, with the link that `relay::join` returned.
  unfoldable pub relay_join :
      Bool → Option Text → RelayLink → Node → Result AdminError (Unit {0}) × Node
  relay_join saved user l n =
      saved_and_applied base32 saved user (record n.config { relay = some l }) n
