-- ===== src/Node/Send/Steps.antt =====
-- node.rs: what each operation does with a message that is kept for its peer.
use agora_protocol.Base.{
  ◌≡◌, refl, sym, ap, ◌∙◌, subst, inl, inr, List, [], ◌∷◌, ◌++◌, some, Option-cases, Bool-cases,
  Text, text_eq, text_eq_refl, text_eq_sound, All, All-append, leb, length, arith, if◌then◌else◌,
}
use agora_protocol.Base.Members.{IsIn, IsIn-left, IsIn-right}
use agora_protocol.Base.Result.{Result, ok}
use agora_protocol.Base.Dict.{
  Dict, lookup, insert, remove, lookup-insert, lookup-remove, AllValues-insert,
  HasUniqueKeys-insert, HasUniqueKeys-remove, lookup-insert_self,
}
use agora_protocol.Node.Types.{Msg, State}
use agora_protocol.Node.Links.{unacked_to, waiting, all_unacked, pending}
use agora_protocol.Node.Send.{post, transmit, hold, SendError, Sent, queue_max}
use agora_protocol.Node.Send.Kept.{
  IsOwn, IsHeld, HasOwnId, All-pending, IsIn-pending, noted-insert, noted-all_unacked,
  found-all_unacked, IsNoted-all_unacked,
}

module _ (peer : Text) (m : Msg) where
  pub record IsKept (u : Dict (Text × Msg)) (out : Dict (List Msg)) : Type 0 where
    pub held : IsHeld peer m u out
    pub own : HasOwnId peer m u out

  waiting-insert :
      (p j : Text) (q : List Msg) (out : Dict (List Msg))
      → waiting (lookup j (insert p q out)) ≡ (if text_eq p j then q else waiting (lookup j out))
  unfolding waiting
  waiting-insert p j q out = ground (arith, lookup-insert p j q out)

  waiting_own :
      (p : Text) (q : List Msg) (out : Dict (List Msg)) → waiting (lookup p (insert p q out)) ≡ q
  waiting_own p q out = waiting-insert p p q out ∙ rw (text_eq_refl p) refl

  HasOwnId-insert :
      (p : Text) (q : List Msg) (u : Dict (Text × Msg)) (out : Dict (List Msg))
      → All (IsOwn peer m p) q
      → HasOwnId peer m u out
      → HasOwnId peer m u (insert p q out)
  HasOwnId-insert p q u out a h = record {
    noted = h.noted;
    queued = λ r.
        subst (All (IsOwn peer m r)) (sym (waiting-insert p r q out))
          (elim (Bool-cases (text_eq p r)) [
            | inl e ↦ rw e (subst (λ x. All (IsOwn peer m x) q) (text_eq_sound p r e) a)
            | inr e ↦ rw e (h.queued r)
          ]);
    unique = HasUniqueKeys-insert p q out h.unique;
  }

  -- Another queue in the outbox, which has the message if the old one has it.
  IsKept-insert :
      (p : Text) (q : List Msg) (u : Dict (Text × Msg)) (out : Dict (List Msg))
      → All (IsOwn peer m p) q
      → (IsIn m (waiting (lookup p out)) → IsIn m q)
      → IsKept u out
      → IsKept u (insert p q out)
  IsKept-insert p q u out a f h = record {
    held = elim h.held [
      | inl e ↦ inl e
      | inr i ↦ inr (
          subst (IsIn m) (sym (waiting-insert p peer q out)) (elim (Bool-cases (text_eq p peer)) [
            | inl e ↦
                rw e (
                  f (subst (λ r. IsIn m (waiting (lookup r out))) (sym (text_eq_sound p peer e)) i))
            | inr e ↦ rw e i
          ]))
    ];
    own = HasOwnId-insert p q u out a h.own;
  }

  -- Noting a message leaves it kept, wherever it was.
  IsKept-noted :
      (p : Text) (x : Msg) (u : Dict (Text × Msg)) (out : Dict (List Msg))
      → IsOwn peer m p x
      → IsKept u out
      → IsKept (insert x.id (p, x) u) out
  IsKept-noted p x u out o h = record {
    held = elim h.held [ inl e ↦ inl (noted-insert peer m p x u o e) | inr i ↦ inr i ];
    own = record {
      noted = AllValues-insert _ x.id (p, x) u o h.own.noted;
      queued = h.own.queued;
      unique = h.own.unique;
    };
  }

  pub IsKept-post :
      (x : Msg) (p : Text) (s : State)
      → IsOwn peer m p x
      → IsKept s.unacked s.outbox
      → IsKept (post x p s).1.unacked (post x p s).1.outbox
  unfolding post transmit hold
  IsKept-post x p s o h = elim (Bool-cases (leb queue_max (length (unacked_to p s.unacked)))) [
    | inl e ↦ rw e h
    | inr e ↦ elim (Option-cases (lookup p s.links)) [
      | inr (l, f) ↦ rw (post, e, f) (IsKept-noted p x s.unacked s.outbox o h)
      | inl f ↦
          rw (post, e, f)
            (elim (Bool-cases (leb queue_max (length (waiting (lookup p s.outbox))))) [
              | inl g ↦ rw g (IsKept-insert p _ s.unacked s.outbox (h.own.queued p) (λ i. i) h)
              | inr g ↦ rw g (
                  IsKept-insert p _ s.unacked s.outbox
                    (All-append _ _ (x ∷ []) (h.own.queued p) (o, tt))
                    (λ i. IsIn-left m _ (x ∷ []) i) h)
            ])
    ]
  ]

  pub IsKept-open :
      (p : Text) (s : State)
      → IsKept s.unacked s.outbox
      → IsKept (all_unacked p (pending p s) s.unacked) (remove p s.outbox)
  IsKept-open p s h = record {
    held = elim h.held [
      | inl e ↦ inl (noted-all_unacked peer m p (pending p s) s.unacked a e)
      | inr i ↦ elim (Bool-cases (text_eq p peer)) [
        | inl e ↦ inl (
            subst (λ r. lookup m.id (all_unacked r (pending r s) s.unacked) ≡ some (peer, m))
              (sym (text_eq_sound p peer e))
              (found-all_unacked peer m (pending peer s) s.unacked (All-pending peer m peer s h.own)
                (IsIn-pending peer m s h.held)))
        | inr e ↦
            inr
              (subst (λ r. IsIn m (waiting r)) (sym (lookup-remove p peer s.outbox ∙ rw e refl)) i)
      ]
    ];
    own = record {
      noted = IsNoted-all_unacked peer m p (pending p s) s.unacked a h.own.noted;
      queued = λ r.
          subst (λ o. All (IsOwn peer m r) (waiting o)) (sym (lookup-remove p r s.outbox))
            (elim (Bool-cases (text_eq p r)) [
              | inl e ↦ rw e (unfold waiting in tt)
              | inr e ↦ rw e (h.own.queued r)
            ]);
      unique = HasUniqueKeys-remove p s.outbox h.own.unique;
    };
  }
    where
      a : All (IsOwn peer m p) (pending p s)
      a = All-pending peer m p s h.own

  -- A message that is accepted is kept, if none in the state has its id.
  pub post-IsKept :
      (s s' : State) (r : Sent)
      → HasOwnId peer m s.unacked s.outbox
      → post m peer s ≡ (ok r, s')
      → IsKept s'.unacked s'.outbox
  unfolding post transmit hold
  post-IsKept s s' r h e = elim (Bool-cases (leb queue_max (length (unacked_to peer s.unacked)))) [
    | inl f ↦ absurd (cc (ap (λ (x : Result SendError Sent × State). x.0) (rw f at e)))
    | inr f ↦ elim (Option-cases (lookup peer s.links)) [
      | inr (l, g) ↦
          subst (λ (t : State). IsKept t.unacked t.outbox)
            (ap (λ (x : Result SendError Sent × State). x.1) (rw (post, f, g) at e))
            (record {
              held = inl (lookup-insert_self m.id (peer, m) s.unacked);
              own = record {
                noted = AllValues-insert _ m.id (peer, m) s.unacked (λ k. (refl, refl)) h.noted;
                queued = h.queued;
                unique = h.unique;
              };
            })
      | inl g ↦ elim (Bool-cases (leb queue_max (length (waiting (lookup peer s.outbox))))) [
        | inl k ↦
            absurd (cc (ap (λ (x : Result SendError Sent × State). x.0) (rw (post, f, g, k) at e)))
        | inr k ↦
            subst (λ (t : State). IsKept t.unacked t.outbox)
              (ap (λ (x : Result SendError Sent × State). x.1) (rw (post, f, g, k) at e))
              (record {
                held = inr (
                    subst (IsIn m)
                      (sym (waiting_own peer (waiting (lookup peer s.outbox) ++ m ∷ []) s.outbox))
                      (IsIn-right m _ (m ∷ []) (inl refl)));
                own =
                    HasOwnId-insert peer _ s.unacked s.outbox
                      (All-append _ _ (m ∷ []) (h.queued peer) ((λ q. (refl, refl)), tt)) h;
              })
      ]
    ]
  ]
