-- ===== src/Node/Trust.antt =====
-- node.rs: the state of a node when its configuration changes (`apply`), invitations and refused keys.
use agora_protocol.Base.{
  ℕ, ◌+◌, ◌≡◌, refl, sym, ap, ◌∙◌, Bool, true, false, ◌&&◌, not, inl, inr, List, [], ◌∷◌, ◌++◌,
  Option, none, some, Option-cases, Bool-cases, Text, Bytes, text_eq, text_eq_sound, is_empty,
  length, drop, retain, ltb, leb, if◌then◌else◌,
}
use agora_protocol.Base.Dict.{Dict, lookup, retain_entries, lookup-retain_entries}
use agora_protocol.Base.Result.{Result, ok, err}
use agora_protocol.Config.Types.{Config}
use agora_protocol.Config.Names.{valid_name}
use agora_protocol.Config.Keys.{Base32, encode_key}
use agora_protocol.Config.Peers.{has_peer, trusts}
use agora_protocol.Node.Types.{P2p, Link, State}
use agora_protocol.Node.Presence.{send_all, broadcast_presence}

abbrev pub refused_max : ℕ
refused_max = 20

-- `INVITE_TTL`
abbrev pub invite_ttl : ℕ
invite_ttl = 600000000000

pub data InviteError : Type 0 where
  invalid_peer_name already_trusted too_many_invites : InviteError

-- The links that end, because their machine or its key is trusted no longer.
unfoldable pub ended : Base32 → Config → Dict Link → List ℕ
ended base32 cfg [] = []
ended base32 cfg ((name, l) ∷ m) =
    let rest = ended base32 cfg m in if trusts base32 name l.key cfg then rest else l.id ∷ rest

-- The state part of `apply`.
unfoldable pub apply : Base32 → Config → Option Text → State → State
apply base32 cfg user s = broadcast_presence cfg user (record s {
  links = retain_entries (λ name l. trusts base32 name l.key cfg) s.links;
  outbox = retain_entries (λ name _. has_peer name cfg) s.outbox;
  remote = retain_entries (λ name _. has_peer name cfg) s.remote;
  known = retain_entries (λ name _. has_peer name cfg) s.known;
  closing = s.closing ++ ended base32 cfg s.links;
})

unfoldable pub invites_open : ℕ → State → Bool × State
invites_open now s =
    let open_ones = retain (λ i. ltb now i.expires) s.invites in
    (not (is_empty open_ones), record s { invites = open_ones })

-- `if st.refused.len() > REFUSED_MAX { pop_front }`
abbrev pub at_most_refused : List (Text × Text × ℕ) → List (Text × Text × ℕ)
at_most_refused r = if ltb refused_max (length r) then drop 1 r else r

unfoldable pub note_refused : Base32 → Bytes → Text → ℕ → State → State
note_refused base32 key from now s = record s {
  refused = at_most_refused (
      retain (λ r. not (text_eq r.0 (encode_key base32 key))) s.refused
      ++ (encode_key base32 key, from, now) ∷ []);
}

-- `invite`, with the random secret.
unfoldable pub invite :
    Config → Bytes → Text → Bool → ℕ → State → Result InviteError (Unit {0}) × State
invite cfg secret name files now s =
    let others = retain (λ i. ltb now i.expires && not (text_eq i.name name)) s.invites in
    if not (valid_name name)
    then (err invalid_peer_name, s)
    else if has_peer name cfg
    then (err already_trusted, s)
    else if leb 16 (length others)
    then (err too_many_invites, record s { invites = others })
    else (
      ok tt,
      record s {
        invites =
            others
            ++ (record { secret = secret; name = name; files = files; expires = now + invite_ttl })
              ∷ [];
      },
    )

lookup-retained :
    {V : Type 0} (p : Text → V → Bool) (j : Text) (m : Dict V) (v : V)
    → lookup j (retain_entries p m) ≡ some v
    → p j v ≡ true
unfolding lookup retain_entries
lookup-retained p j [] v h = absurd (cc)
lookup-retained p j ((k, w) ∷ m) v h = elim (Bool-cases (p k w)) [
  | inr b ↦ lookup-retained p j m v (rw b at h)
  | inl b ↦ elim (Bool-cases (text_eq k j)) [
    | inl e ↦ cc (text_eq_sound k j e, b, rw e at (rw b at h))
    | inr e ↦ lookup-retained p j m v (rw e at (rw b at h))
  ]
]

key_of : Option Link → Option Bytes
key_of none = none
key_of (some l) = some l.key

lookup-send_all :
    (p : P2p) (j : Text) (m : Dict Link) → key_of (lookup j (send_all p m)) ≡ key_of (lookup j m)
unfolding lookup send_all key_of
lookup-send_all p j [] = refl
lookup-send_all p j ((k, l) ∷ m) = elim (Bool-cases (text_eq k j)) [
  | inl e ↦ rw e refl
  | inr e ↦ rw e (lookup-send_all p j m)
]

keyed :
    (base32 : Base32) (cfg : Config) (name : Text) (key : Bytes) (m : Dict Link)
    → key_of (lookup name (retain_entries (λ n l. trusts base32 n l.key cfg) m)) ≡ some key
    → trusts base32 name key cfg ≡ true
unfolding key_of
keyed base32 cfg name key m h =
    elim (Option-cases (lookup name (retain_entries (λ n l. trusts base32 n l.key cfg) m))) [
      | inl e ↦ absurd (cc (rw e at h))
      | inr (l, e) ↦ cc (lookup-retained (λ n x. trusts base32 n x.key cfg) name m l e, rw e at h)
    ]

-- After a change of the configuration every link that is left belongs to a machine that is trusted
-- with the key of the link, and nothing waits in the outbox for a machine that is not trusted. But
-- what such a machine has not confirmed stays noted under its name.
pub apply-trusted :
    (base32 : Base32) (cfg : Config) (user : Option Text) (s : State) (name : Text)
    → ((l : Link)
        → lookup name (apply base32 cfg user s).links ≡ some l
        → trusts base32 name l.key cfg ≡ true)
      × (has_peer name cfg ≡ false → lookup name (apply base32 cfg user s).outbox ≡ none)
      × ((apply base32 cfg user s).unacked ≡ s.unacked)
unfolding apply broadcast_presence key_of
apply-trusted base32 cfg user s name = (
  λ l h. keyed base32 cfg name l.key s.links (sym (lookup-send_all _ name _) ∙ ap key_of h),
  λ h. lookup-retain_entries (λ n. has_peer n cfg) name s.outbox ∙ rw h refl,
  refl,
)
