-- ===== src/Node/Send/Kept.antt =====
-- node.rs: where a message is that was accepted and not answered: among the unconfirmed ones or in the
-- outbox of its peer.
use agora_protocol.Base.{
  ◌≡◌, sym, ap, ◌∙◌, subst, true, inl, inr, ◌⊎◌, List, [], ◌∷◌, some, Bool-cases, Text, text_eq,
  text_eq_refl, text_eq_sound, All, All-append, eq_of_some,
}
use agora_protocol.Base.Members.{IsIn, IsIn-left, IsIn-right}
use agora_protocol.Base.Dict.{
  Dict, lookup, insert, lookup-insert, lookup-insert_self, AllValues, AllValues-insert,
  HasUniqueKeys,
}
use agora_protocol.Node.Types.{Msg, State}
use agora_protocol.Node.Links.Sorting.{IsIn-sort_by_ts, All-sort_by_ts}
use agora_protocol.Node.Links.{unacked_to, waiting, all_unacked, pending}

module _ (peer : Text) (m : Msg) where
  -- The message is the only one with its id.
  abbrev pub IsOwn : Text → Msg → Type 0
  IsOwn p x = text_eq x.id m.id ≡ true → (p ≡ peer) × (x ≡ m)

  abbrev pub IsNoted : Dict (Text × Msg) → Type 0
  IsNoted u = AllValues (λ (v : Text × Msg). IsOwn v.0 v.1) u

  -- Where the message is.
  abbrev pub IsHeld : Dict (Text × Msg) → Dict (List Msg) → Type 0
  IsHeld u out = (lookup m.id u ≡ some (peer, m)) ⊎ IsIn m (waiting (lookup peer out))

  -- No other message has its id, in the part of the state that keeps messages.
  pub record HasOwnId (u : Dict (Text × Msg)) (out : Dict (List Msg)) : Type 0 where
    pub noted : IsNoted u
    pub queued : (p : Text) → All (IsOwn p) (waiting (lookup p out))
    pub unique : HasUniqueKeys out

  pub All-unacked_to :
      (p : Text) (u : Dict (Text × Msg)) → IsNoted u → All (IsOwn p) (unacked_to p u)
  unfolding unacked_to AllValues
  All-unacked_to p [] h = tt
  All-unacked_to p ((id, (q, x)) ∷ u) h = elim (Bool-cases (text_eq q p)) [
    | inl e ↦ rw e (subst (λ r. IsOwn r x) (text_eq_sound q p e) h.0, All-unacked_to p u h.1)
    | inr e ↦ rw e (All-unacked_to p u h.1)
  ]

  pub IsIn-unacked_to :
      (id : Text) (u : Dict (Text × Msg))
      → lookup id u ≡ some (peer, m)
      → IsIn m (unacked_to peer u)
  unfolding unacked_to lookup
  IsIn-unacked_to id [] h = absurd (cc)
  IsIn-unacked_to id ((j, (q, x)) ∷ u) h = elim (Bool-cases (text_eq j id)) [
    | inl e ↦
        let same = eq_of_some _ _ (rw e at h) in
        let here : text_eq q peer ≡ true =
          rw (ap (λ (v : Text × Msg). v.0) same) (text_eq_refl peer) in
        rw here (inl (ap (λ (v : Text × Msg). v.1) same))
    | inr e ↦ elim (Bool-cases (text_eq q peer)) [
      | inl f ↦ rw f (inr (IsIn-unacked_to id u (rw e at h)))
      | inr f ↦ rw f (IsIn-unacked_to id u (rw e at h))
    ]
  ]

  -- Everything that a new link has to send.
  pub All-pending :
      (p : Text) (s : State) → HasOwnId s.unacked s.outbox → All (IsOwn p) (pending p s)
  unfolding pending
  All-pending p s h =
      All-append _ _ _ (All-sort_by_ts (IsOwn p) _ (All-unacked_to p s.unacked h.noted))
        (h.queued p)

  pub IsIn-pending : (s : State) → IsHeld s.unacked s.outbox → IsIn m (pending peer s)
  unfolding pending
  IsIn-pending s (inl e) = IsIn-left m _ _ (IsIn-sort_by_ts m _ (IsIn-unacked_to m.id s.unacked e))
  IsIn-pending s (inr h) = IsIn-right m _ _ h

  -- Noting messages of which none other has the id keeps the message noted.
  pub noted-insert :
      (p : Text) (x : Msg) (u : Dict (Text × Msg))
      → IsOwn p x
      → lookup m.id u ≡ some (peer, m)
      → lookup m.id (insert x.id (p, x) u) ≡ some (peer, m)
  noted-insert p x u own h =
      lookup-insert x.id m.id (p, x) u ∙ elim (Bool-cases (text_eq x.id m.id)) [
        | inl e ↦ let o = own e in rw e (ap some (ap2 o.0 o.1))
        | inr e ↦ rw e h
      ]
    where
      ap2 : p ≡ peer → x ≡ m → ◌≡◌ {A = Text × Msg} (p, x) (peer, m)
      ap2 a b = cc (a, b)

  pub noted-all_unacked :
      (p : Text) (xs : List Msg) (u : Dict (Text × Msg))
      → All (IsOwn p) xs
      → lookup m.id u ≡ some (peer, m)
      → lookup m.id (all_unacked p xs u) ≡ some (peer, m)
  unfolding all_unacked
  noted-all_unacked p [] u o h = h
  noted-all_unacked p (x ∷ xs) u o h =
      noted-all_unacked p xs (insert x.id (p, x) u) o.1 (noted-insert p x u o.0 h)

  pub found-all_unacked :
      (xs : List Msg) (u : Dict (Text × Msg))
      → All (IsOwn peer) xs
      → IsIn m xs
      → lookup m.id (all_unacked peer xs u) ≡ some (peer, m)
  unfolding all_unacked
  found-all_unacked [] u o h = absurd h
  found-all_unacked (x ∷ xs) u o (inl e) = noted-all_unacked peer xs (insert x.id (peer, x) u) o.1 (
      subst (λ y. lookup m.id (insert y.id (peer, y) u) ≡ some (peer, m)) (sym e)
        (lookup-insert_self m.id (peer, m) u))
  found-all_unacked (x ∷ xs) u o (inr h) = found-all_unacked xs (insert x.id (peer, x) u) o.1 h

  pub IsNoted-all_unacked :
      (p : Text) (xs : List Msg) (u : Dict (Text × Msg))
      → All (IsOwn p) xs
      → IsNoted u
      → IsNoted (all_unacked p xs u)
  unfolding all_unacked
  IsNoted-all_unacked p [] u o h = h
  IsNoted-all_unacked p (x ∷ xs) u o h =
      IsNoted-all_unacked p xs (insert x.id (p, x) u) o.1 (AllValues-insert _ x.id (p, x) u o.0 h)
