-- ===== src/Node/Pairing/Checked.antt =====
-- node.rs: what each operation does with the list of trusted machines and the names of invitations.
use agora_protocol.Codes.RoundTrip.{decode_invite-length}
use agora_protocol.Base.{
  ℕ, ◌≡◌, refl, sym, ap, ◌∙◌, subst, Bool, true, false, not, ◌||◌, ◌&&◌, inl, inr, Option, none,
  some, Option-cases, Bool-cases, Text, Bytes, text_eq, length, retain, All, All-append, All-retain,
  All-both, find-none, ltb, arith, leb, codes, mem,
}
use agora_protocol.Base.Result.{Result, ok, err, >>=-eq-ok, eq_of_ok, bail_if-ok}
use agora_protocol.Config.Types.{Config, Peer}
use agora_protocol.Config.Names.{valid_name}
use agora_protocol.Config.Keys.{Base32, key_length}
use agora_protocol.Config.Peers.{has_peer, peer_by_key, peer_has_key}
use agora_protocol.Node.Types.{State, Invite}
use agora_protocol.Node.Address.{ct_eq}
use agora_protocol.Node.Address.OneTime.{take_first, All-take_first}
use agora_protocol.Node.Trust.{note_refused, invite}
use agora_protocol.Node.Admin.{
  other, Node, AdminError, Request, reload, admin, saved_and_applied, move_state, trust, edit,
  untrust, set_files, owner, rename,
}
use agora_protocol.Node.Admin.TrustList.{IsTrustList, add-IsTrustList, has_peer-absent}
use agora_protocol.Node.Pairing.{
  First, no_message, no_secret, secret, is_taken, with_machine, pair_by, pair_with, pairing,
  join_start, join_end, joined_as, known_key, read_code, CodeError, usage, decode_invite,
  own_invite, already_paired, name_taken,
}
use agora_protocol.Node.Pairing.OneTime.{
  node-after_apply, invites-pair_by, invites-saved_and_applied,
}

-- What holds at every moment: the list of machines can be loaded, no two have the same name or the
-- same key, and the names of the invitations are names of machines.
pub record IsTrusted (base32 : Base32) (n : Node) : Type 0 where
  pub machines : IsTrustList base32 n.config.peer
  pub invited : All (λ (i : Invite). valid_name i.name ≡ true) n.state.invites

module _ (base32 : Base32) where
  with_machine-IsTrustList :
      (name : Text) (key : Bytes) (addr : Option Text) (shared : Bool) (cfg : Config)
      → valid_name name ≡ true
      → length key ≡ key_length
      → is_taken base32 name key cfg ≡ false
      → IsTrustList base32 cfg.peer
      → IsTrustList base32 (with_machine base32 name key addr shared cfg).peer
  unfolding with_machine peer_by_key
  with_machine-IsTrustList name key addr shared cfg v l t h =
      add-IsTrustList base32 name key addr shared cfg.peer v l
        (All-both cfg.peer (has_peer-absent name cfg (left t))
          (no_key (peer_by_key base32 key cfg) refl (right t)) (λ p a b. (a, b)))
        h
    where
      left : (is_taken base32 name key cfg ≡ false) → has_peer name cfg ≡ false
      left e = ground (arith, e)

      right :
          (is_taken base32 name key cfg ≡ false) → known_key (peer_by_key base32 key cfg) ≡ false
      right e = ground (arith, e)

      no_key :
          (o : Option Peer)
          → peer_by_key base32 key cfg ≡ o
          → known_key o ≡ false
          → All (λ p. peer_has_key base32 key p ≡ false) cfg.peer
      no_key none e f = find-none (peer_has_key base32 key) cfg.peer e
      no_key (some p) e f = absurd (cc (f))

  pub saved-IsTrustList :
      (saved : Bool) (user : Option Text) (cfg : Config) (n : Node)
      → IsTrustList base32 cfg.peer
      → IsTrustList base32 n.config.peer
      → IsTrustList base32 (saved_and_applied base32 saved user cfg n).1.config.peer
  unfolding saved_and_applied
  saved-IsTrustList true user cfg n c h = c
  saved-IsTrustList false user cfg n c h = h

  pair_by-IsTrustList :
      (saved : Bool) (user : Option Text) (key : Bytes) (inv : Invite) (n : Node)
      → length key ≡ key_length
      → valid_name inv.name ≡ true
      → IsTrustList base32 n.config.peer
      → IsTrustList base32 (pair_by base32 saved user key inv n).1.config.peer
  unfolding pair_by
  pair_by-IsTrustList saved user key inv n l v h =
      elim (Bool-cases (is_taken base32 inv.name key n.config)) [
        | inl b ↦ rw b h
        | inr b ↦ rw b (
            subst (λ (m : Node). IsTrustList base32 m.config.peer)
              (sym (
                node-after_apply inv.name (
                  saved_and_applied base32 saved user
                    (with_machine base32 inv.name key none inv.files n.config) n)))
              (saved-IsTrustList saved user _ n
                (with_machine-IsTrustList inv.name key none inv.files n.config v l b h) h))
      ]

  pub pairing-IsTrusted :
      (hex : Bytes → Text) (saved : Bool) (user : Option Text) (key : Bytes) (from : Text) (now : ℕ)
      (first : First) (n : Node)
      → length key ≡ key_length
      → IsTrusted base32 n
      → IsTrusted base32 (pairing base32 hex saved user key from now first n).1
  unfolding pairing pair_with note_refused
  pairing-IsTrusted hex saved user key from now no_message n l h = h
  pairing-IsTrusted hex saved user key from now no_secret n l h = record {
    machines = h.machines;
    invited = h.invited;
  }
  pairing-IsTrusted hex saved user key from now (secret t) n l h =
      let open_ones =
        All-retain (λ (i : Invite). valid_name i.name ≡ true) (λ i. ltb now i.expires)
          n.state.invites h.invited in
      elim (Option-cases (
        take_first (λ (i : Invite). ct_eq (hex i.secret) t)
          (retain (λ i. ltb now i.expires) n.state.invites))) [
            | inl e ↦ rw (pairing, e) (record { machines = h.machines; invited = open_ones })
            | inr (r, e) ↦
                let v =
                  All-take_first (λ (i : Invite). valid_name i.name ≡ true) _ _ r.0 r.1 open_ones
                    e in
                rw (pairing, e)
                  (record {
                    machines = pair_by-IsTrustList saved user key r.0 _ l v.0 h.machines;
                    invited =
                        subst (All (λ (i : Invite). valid_name i.name ≡ true))
                          (sym (invites-pair_by base32 saved user key r.0 _)) v.1;
                  })
          ]

  pub invite-IsTrusted :
      (raw : Bytes) (name : Text) (shared : Bool) (now : ℕ) (n : Node)
      → IsTrusted base32 n
      → IsTrusted base32 (record n { state = (invite n.config raw name shared now n.state).1 })
  unfolding invite
  invite-IsTrusted raw name shared now n h = record {
    machines = h.machines;
    invited = names (valid_name name) refl;
  }
    where
      others :
          All
            (λ (i : Invite). valid_name i.name ≡ true)
            (retain
              (λ (i : Invite). ltb now i.expires && not (text_eq i.name name))
              n.state.invites)
      others = All-retain _ _ n.state.invites h.invited

      names :
          (b : Bool)
          → valid_name name ≡ b
          → All
              (λ (i : Invite). valid_name i.name ≡ true)
              (invite n.config raw name shared now n.state).1.invites
      names false e = rw (invite, e) h.invited
      names true e =
          rw (invite, e)
            (elim (Bool-cases (has_peer name n.config)) [
              | inl b ↦ rw b h.invited
              | inr b ↦
                  rw b
                    (elim (Bool-cases (
                      leb 16 (
                        length (
                          retain (λ (i : Invite). ltb now i.expires && not (text_eq i.name name))
                            n.state.invites)))) [
                              | inl c ↦ rw c others
                              | inr c ↦ rw c (All-append _ _ _ others (e, tt))
                            ])
            ])

  node-joined_as : (r : Result AdminError (Unit {0}) × Node) → (joined_as r).1 ≡ r.1
  node-joined_as (err e, n) = refl
  node-joined_as (ok u, n) = refl

  read_code-ok :
      (r : Result CodeError (Bytes × Bytes)) (k : Bytes × Bytes) → read_code r ≡ ok k → r ≡ ok k
  unfolding read_code
  read_code-ok (err e) k h = absurd (cc)
  read_code-ok (ok x) k h = ap ok (eq_of_ok x k h)

  -- What the start of a join has checked: the name, and that the code has a key.
  pub join_start-checked :
      (my_key : Bytes) (code name addr : Text) (cfg : Config) (k : Bytes × Bytes)
      → join_start base32 my_key code name addr cfg ≡ ok k
      → (valid_name name ≡ true) × (length k.0 ≡ key_length)
  unfolding join_start
  join_start-checked my_key code name addr cfg k h =
      let (u, later) =
        bail_if-ok (not (valid_name name) || not (text_eq addr (codes "relay") || mem b':' addr))
          usage _ h in
      let (x, read, rest) = >>=-eq-ok (read_code (decode_invite base32 code)) _ later in
      let (own, rest2) = bail_if-ok (text_eq x.0 my_key) own_invite _ rest in
      let (paired, rest3) =
        bail_if-ok (known_key (peer_by_key base32 x.0 cfg)) already_paired _ rest2 in
      let (taken, same) = bail_if-ok (has_peer name cfg) name_taken _ rest3 in
      (
        valid_of _ u,
        subst (λ (y : Bytes × Bytes). length y.0 ≡ key_length) (eq_of_ok x k same)
            (decode_invite-length base32 code x (read_code-ok _ x read)),
      )
    where
      valid_of : (b : Bool) → (not (valid_name name) || b) ≡ false → valid_name name ≡ true
      valid_of b e = ground (arith, e)

  pub join_end-IsTrusted :
      (saved : Bool) (user : Option Text) (key : Bytes) (name addr : Text) (welcome : Bool)
      (n : Node)
      → valid_name name ≡ true
      → length key ≡ key_length
      → IsTrusted base32 n
      → IsTrusted base32 (join_end base32 saved user key name addr welcome n).1
  unfolding join_end
  join_end-IsTrusted saved user key name addr false n v l h = h
  join_end-IsTrusted saved user key name addr true n v l h =
      elim (Bool-cases (is_taken base32 name key n.config)) [
        | inl b ↦ rw b h
        | inr b ↦ rw b (
            subst (IsTrusted base32)
              (sym (
                node-joined_as (
                  saved_and_applied base32 saved user
                    (with_machine base32 name key (some addr) true n.config) n)))
              (record {
                machines =
                    saved-IsTrustList saved user _ n
                      (with_machine-IsTrustList name key (some addr) true n.config v l b h.machines)
                      h.machines;
                invited =
                    subst (All (λ (i : Invite). valid_name i.name ≡ true))
                      (sym (invites-saved_and_applied base32 saved user _ n)) h.invited;
              }))
      ]

invites-move_state : (r : Request) (s : State) → (move_state r s).invites ≡ s.invites
unfolding move_state
invites-move_state (trust name t addr) s = refl
invites-move_state (untrust name) s = refl
invites-move_state (set_files name on) s = refl
invites-move_state (owner t) s = refl
invites-move_state (rename old new) s = refl
invites-move_state (reload loaded) s = refl
invites-move_state other s = refl

pub invites-admin :
    (base32 : Base32) (my_key : Bytes) (sanitize : Text → Text) (saved : Bool) (user : Option Text)
    (r : Request) (n : Node)
    → (admin base32 my_key sanitize saved user r n).1.state.invites ≡ n.state.invites
unfolding admin
invites-admin base32 my_key sanitize saved user r n =
    split (edit base32 my_key sanitize r n.config) refl
  where
    split :
        (e : Result AdminError Config)
        → edit base32 my_key sanitize r n.config ≡ e
        → (admin base32 my_key sanitize saved user r n).1.state.invites ≡ n.state.invites
    split (err x) e = rw (admin, e) refl
    split (ok cfg) e =
        rw (admin, e)
          (invites-saved_and_applied base32 saved user cfg _ ∙ invites-move_state r n.state)
