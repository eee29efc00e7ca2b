-- ===== src/Node/Pairing/Spent.antt =====
-- node.rs: a secret opens at most one pairing, whatever a node does between two attempts.
use agora_protocol.Base.{
  ℕ, ◌≡◌, refl, sym, ◌∙◌, subst, Bool, true, false, not, ◌&&◌, inl, inr, Option, Option-cases,
  Bool-cases, Text, Bytes, text_eq, length, retain, All, All-retain, All-append, ltb, leb,
}
use agora_protocol.Base.Result.{Result, ok, err}
use agora_protocol.Config.Types.{Config}
use agora_protocol.Config.Names.{valid_name}
use agora_protocol.Config.Keys.{Base32}
use agora_protocol.Config.Peers.{has_peer}
use agora_protocol.Node.Types.{Invite}
use agora_protocol.Node.Address.{ct_eq}
use agora_protocol.Node.Address.Secrets.{IsByte}
use agora_protocol.Node.Address.OneTime.{
  take_first, HasDistinctCodes, take_first-none, All-take_first,
}
use agora_protocol.Node.Trust.{note_refused, invite, invites_open}
use agora_protocol.Node.Admin.{Node, AdminError}
use agora_protocol.Node.Pairing.{
  First, no_message, no_secret, secret, ended, is_taken, joined_as, pairing, join_end, relay_join,
}
use agora_protocol.Node.Pairing.OneTime.{
  code_of, invites-saved_and_applied, invites-pair_by, pairing-closed,
}
use agora_protocol.Node.Pairing.Checked.{invites-admin}
use agora_protocol.Node.Pairing.Trusted.{
  Change, command, invited, paired, joining, relaying, pruned, same, Comes, first, later,
}

state-joined_as :
    (r : Result AdminError (Unit {0}) × Node) → (joined_as r).1.state.invites ≡ r.1.state.invites
state-joined_as (err e, n) = refl
state-joined_as (ok u, n) = refl

module _ (base32 : Base32) (hex : Bytes → Text) (t : Text) where
  abbrev IsClosed : Invite → Type 0
  IsClosed i = ct_eq (hex i.secret) t ≡ false

  -- No invitation is opened by the secret.
  abbrev AreClosed : Node → Type 0
  AreClosed n = All IsClosed n.state.invites

  -- What the pairing with another secret does to the invitations.
  other_secret :
      (saved : Bool) (user : Option Text) (key : Bytes) (from : Text) (now : ℕ) (u : Text)
      (n : Node)
      → AreClosed n
      → AreClosed (pairing base32 hex saved user key from now (secret u) n).1
  unfolding pairing note_refused
  other_secret saved user key from now u n h =
      let opens = λ (i : Invite). ct_eq (hex i.secret) u in
      let open_ones = retain (λ i. ltb now i.expires) n.state.invites in
      let kept = All-retain IsClosed (λ i. ltb now i.expires) n.state.invites h in
      elim (Option-cases (take_first opens open_ones)) [
        | inl e ↦ rw (pairing, e) kept
        | inr (r, e) ↦
            rw (pairing, e)
              (subst (All IsClosed) (sym (invites-pair_by base32 saved user key r.0 _))
                (All-take_first IsClosed opens open_ones r.0 r.1 kept e).1)
      ]

  pairing-AreClosed :
      (saved : Bool) (user : Option Text) (key : Bytes) (from : Text) (now : ℕ) (f : First)
      (n : Node)
      → AreClosed n
      → AreClosed (pairing base32 hex saved user key from now f n).1
  unfolding pairing note_refused
  pairing-AreClosed saved user key from now no_message n h = h
  pairing-AreClosed saved user key from now no_secret n h = h
  pairing-AreClosed saved user key from now (secret u) n h =
      other_secret saved user key from now u n h

  invite-AreClosed :
      (raw : Bytes) (name : Text) (shared : Bool) (now : ℕ) (n : Node)
      → ct_eq (hex raw) t ≡ false
      → AreClosed n
      → AreClosed (record n { state = (invite n.config raw name shared now n.state).1 })
  unfolding invite
  invite-AreClosed raw name shared now n o h =
      let p = λ (i : Invite). ltb now i.expires && not (text_eq i.name name) in
      let others = All-retain IsClosed p n.state.invites h in
      elim (Bool-cases (not (valid_name name))) [
        | inl a ↦ rw (a, invite) h
        | inr a ↦ elim (Bool-cases (has_peer name n.config)) [
          | inl b ↦ rw (a, b, invite) h
          | inr b ↦ elim (Bool-cases (leb 16 (length (retain p n.state.invites)))) [
            | inl c ↦ rw (a, b, c, invite) others
            | inr c ↦ rw (a, b, c, invite) (All-append IsClosed _ _ others (o, tt))
          ]
        ]
      ]

  join_end-AreClosed :
      (saved : Bool) (user : Option Text) (key : Bytes) (name addr : Text) (welcome : Bool)
      (n : Node)
      → AreClosed n
      → AreClosed (join_end base32 saved user key name addr welcome n).1
  unfolding join_end
  join_end-AreClosed saved user key name addr false n h = h
  join_end-AreClosed saved user key name addr true n h =
      elim (Bool-cases (is_taken base32 name key n.config)) [
        | inl b ↦ rw (b, join_end) h
        | inr b ↦
            rw (b, join_end)
              (subst (All IsClosed)
                (sym (state-joined_as _ ∙ invites-saved_and_applied base32 saved user _ n)) h)
      ]

  module _ (my_key : Bytes) (sanitize : Text → Text) (OnDisk : Config → Type 0) where
    -- A new invitation has another secret.
    abbrev pub HasOtherSecret : {a b : Node} → Change base32 hex my_key sanitize OnDisk a b → Type 0
    HasOtherSecret (invited raw name shared now) = ct_eq (hex raw) t ≡ false
    HasOtherSecret _ = Unit

    abbrev pub HaveOtherSecrets :
        {a b : Node} → Comes base32 hex my_key sanitize OnDisk a b → Type 0
    HaveOtherSecrets first = Unit
    HaveOtherSecrets (later c x) = HaveOtherSecrets c × HasOtherSecret x

    Change-AreClosed :
        {a b : Node} (x : Change base32 hex my_key sanitize OnDisk a b)
        → HasOtherSecret x
        → AreClosed a
        → AreClosed b
    unfolding relay_join invites_open
    Change-AreClosed {a} (command saved user r l) o h =
        subst (All IsClosed) (sym (invites-admin base32 my_key sanitize saved user r a)) h
    Change-AreClosed {a} (invited raw name shared now) o h =
        invite-AreClosed raw name shared now a o h
    Change-AreClosed {a} (paired saved user key from now f l) o h =
        pairing-AreClosed saved user key from now f a h
    Change-AreClosed {a} (joining saved user code name addr before k welcome e) o h =
        join_end-AreClosed saved user k.0 name addr welcome a h
    Change-AreClosed {a} (relaying saved user l) o h =
        subst (All IsClosed) (sym (invites-saved_and_applied base32 saved user _ a)) h
    Change-AreClosed {a} (pruned now) o h = All-retain IsClosed _ a.state.invites h
    Change-AreClosed (same s e) o h = subst (All IsClosed) (sym e) h

    Comes-AreClosed :
        {a b : Node} (c : Comes base32 hex my_key sanitize OnDisk a b)
        → HaveOtherSecrets c
        → AreClosed a
        → AreClosed b
    Comes-AreClosed first o h = h
    Comes-AreClosed (later c x) o h = Change-AreClosed x o.1 (Comes-AreClosed c o.0 h)

    -- A secret opens at most one pairing: whatever a first attempt with it came to, and whatever
    -- commands, invitations, pairings and joins come after it, a later attempt with it, by any machine
    -- at any time, ends without a link, if the invitations before the first have different secrets and
    -- each later one has another secret.
    pub pairing-spent :
        (saved : Bool) (user : Option Text) (key : Bytes) (from : Text) (now : ℕ) (n b : Node)
        (saved' : Bool) (key' : Bytes) (from' : Text) (at_time : ℕ)
        → All IsByte t
        → HasDistinctCodes (code_of hex) n.state.invites
        → (c : Comes base32 hex my_key sanitize OnDisk
            (pairing base32 hex saved user key from now (secret t) n).1
            b)
        → HaveOtherSecrets c
        → (pairing base32 hex saved' user key' from' at_time (secret t) b).0 ≡ ended
    unfolding pairing
    pairing-spent saved user key from now n b saved' key' from' at_time bytes d c o =
        let closed =
          Comes-AreClosed c o (pairing-closed base32 hex saved user key from now t n bytes d) in
        rw
          (
            pairing,
            take_first-none (λ (i : Invite). ct_eq (hex i.secret) t)
                (retain (λ i. ltb at_time i.expires) b.state.invites) (All-retain _ _ _ closed),
          )
          refl
