-- ===== src/Node/Admin/Rename.antt =====
-- node.rs: renaming a machine moves what waits for it.
use agora_protocol.Base.{
  ◌≡◌, refl, sym, ap, ◌∙◌, subst, true, inl, inr, List, [], ◌∷◌, ◌++◌, Option, none, some,
  Option-cases, Bool-cases, Text, Bytes, text_eq, text_eq_refl, find, eq_of_some, ◌≢◌,
}
use agora_protocol.Base.Dict.{
  Dict, lookup, remove, lookup-insert_self, lookup-retain_entries, retain_entries,
}
use agora_protocol.Base.Result.{Result, ok, err, eq_of_ok, >>-eq-ok}
use agora_protocol.Config.Types.{Config, Peer}
use agora_protocol.Config.Keys.{Base32}
use agora_protocol.Config.Peers.{has_peer, peer_named}
use agora_protocol.Node.Types.{Msg}
use agora_protocol.Node.Links.{unacked_to, sort_by_ts, waiting, pending}
use agora_protocol.Node.Trust.{apply}
use agora_protocol.Node.Presence.{broadcast_presence}
use agora_protocol.Node.Admin.{
  Node, AdminError, rename, update_peer, change_peer, move_key, rename_unacked, move_state,
  saved_and_applied, edit, admin,
}

lookup-move_key :
    {V : Type 0} (old new : Text) (m : Dict V)
    → lookup new m ≡ none
    → lookup new (move_key old new m) ≡ lookup old m
unfolding move_key
lookup-move_key old new m h = elim (Option-cases (lookup old m)) [
  | inl e ↦ rw (move_key, e) h
  | inr (v, e) ↦ rw (move_key, e) (lookup-insert_self new v (remove old m))
]

unacked_to-rename_unacked :
    (old new : Text) (m : Dict (Text × Msg))
    → unacked_to new m ≡ []
    → unacked_to new (rename_unacked old new m) ≡ unacked_to old m
unfolding unacked_to rename_unacked
unacked_to-rename_unacked old new [] h = refl
unacked_to-rename_unacked old new ((id, (p, x)) ∷ rest) h = elim (Bool-cases (text_eq p new)) [
  | inl e ↦ absurd (cc (rw e at h))
  | inr e ↦ elim (Bool-cases (text_eq p old)) [
    | inl f ↦
        rw (f, text_eq_refl new)
          (ap (λ t. x ∷ t) (unacked_to-rename_unacked old new rest (rw e at h)))
    | inr f ↦ rw (f, e) (unacked_to-rename_unacked old new rest (rw e at h))
  ]
]

find-update_peer :
    (old new : Text) (ps qs : List Peer)
    → update_peer old (λ p. record p { name = new }) ps ≡ some qs
    → find (λ p. text_eq p.name new) qs ≢ none
unfolding update_peer
find-update_peer old new [] qs h e = absurd (cc)
find-update_peer old new (p ∷ ps) qs h e = elim (Bool-cases (text_eq p.name old)) [
  | inl b ↦ absurd (
      cc (
        rw (text_eq_refl new) at (
          subst (λ q. find (λ x. text_eq x.name new) q ≡ none) (sym (eq_of_some _ qs (rw b at h)))
            e)))
  | inr b ↦ elim (Option-cases (update_peer old (λ p. record p { name = new }) ps)) [
    | inl n ↦ absurd (cc (rw n at (rw b at h)))
    | inr (rs, n) ↦
        let g =
          subst (λ q. find (λ x. text_eq x.name new) q ≡ none)
            (sym (eq_of_some _ qs (rw n at (rw b at h)))) e in
        elim (Bool-cases (text_eq p.name new)) [
          | inl c ↦ absurd (cc (rw c at g))
          | inr c ↦ find-update_peer old new ps rs n (rw c at g)
        ]
  ]
]

-- The configuration knows the new name.
has_peer-change_peer :
    (old new : Text) (cfg cfg' : Config)
    → change_peer old (λ p. record p { name = new }) cfg ≡ ok cfg'
    → has_peer new cfg' ≡ true
unfolding change_peer has_peer peer_named
has_peer-change_peer old new cfg cfg' h =
    elim (Option-cases (update_peer old (λ p. record p { name = new }) cfg.peer)) [
      | inl n ↦ absurd (cc (rw (change_peer, n) at h))
      | inr (qs, n) ↦
          subst (λ c. has_peer new c ≡ true) (eq_of_ok _ cfg' (rw (change_peer, n) at h))
            (elim (Option-cases (find (λ p. text_eq p.name new) qs)) [
              | inl e ↦ absurd (find-update_peer old new cfg.peer qs n e)
              | inr (p, e) ↦ rw (has_peer, e) refl
            ])
    ]

module _ (base32 : Base32) (my_key : Bytes) (sanitize : Text → Text) where
  -- A machine that was renamed gets all messages that waited for it or that it had not confirmed, in
  -- the same order, under its new name, if nothing was kept for the new name before.
  pub admin-rename :
      (user : Option Text) (old new : Text) (n n' : Node)
      → lookup new n.state.outbox ≡ none
      → unacked_to new n.state.unacked ≡ []
      → admin base32 my_key sanitize true user (rename old new) n ≡ (ok tt, n')
      → pending new n'.state ≡ pending old n.state
  unfolding admin edit saved_and_applied apply broadcast_presence move_state pending
  admin-rename user old new n n' o u h =
      go (edit base32 my_key sanitize (rename old new) n.config) refl
    where
      go :
          (e : Result AdminError Config)
          → edit base32 my_key sanitize (rename old new) n.config ≡ e
          → pending new n'.state ≡ pending old n.state
      go (err x) e = absurd (cc (rw (admin, e) at h))
      go (ok cfg) e =
          let (v, rest) = >>-eq-ok _ _ e in
          let (t, change) = >>-eq-ok _ _ rest in
          let kept = has_peer-change_peer old new n.config cfg change in
          ap (λ (m : Node). pending new m.state)
            (sym (ap (λ (r : Result AdminError (Unit {0}) × Node). r.1) (rw (admin, e) at h)))
          ∙ ap
              (λ q.
                sort_by_ts q
                ++ waiting (
                    lookup new (
                      retain_entries (λ name _. has_peer name cfg)
                        (move_key old new n.state.outbox))))
              (unacked_to-rename_unacked old new n.state.unacked u)
          ∙ ap (λ q. sort_by_ts (unacked_to old n.state.unacked) ++ waiting q)
              (lookup-retain_entries (λ k. has_peer k cfg) new (move_key old new n.state.outbox)
                ∙ rw kept (lookup-move_key old new n.state.outbox o))
