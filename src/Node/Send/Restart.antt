-- ===== src/Node/Send/Restart.antt =====
-- node.rs: no message is lost when a node stops and starts again.
use mathlib.Core.List.{append_assoc, append-nil}
use agora_protocol.Base.{
  ◌≡◌, refl, sym, ap, ◌∙◌, true, false, inl, inr, List, [], ◌∷◌, ◌++◌, Text, text_eq, text_eq_sound,
  Bool-cases, arith, subst, if◌then◌else◌,
}
use agora_protocol.Base.Dict.{
  Dict, lookup, insert, contains_key, lookup-insert, lookup-retain_entries, HasUniqueKeys,
}
use agora_protocol.Config.Types.{Config}
use agora_protocol.Config.Peers.{has_peer}
use agora_protocol.Node.Types.{Msg, State}
use agora_protocol.Node.Links.{unacked_to, waiting}
use agora_protocol.Node.Send.{save_unacked, save_outbox, saved, restore}

-- The messages that wait for a peer in an outbox.
abbrev of : Text → Dict (List Msg) → List Msg
of p m = waiting (lookup p m)

of-insert :
    (k p : Text) (q : List Msg) (m : Dict (List Msg))
    → of p (insert k q m) ≡ (if text_eq k p then q else of p m)
unfolding waiting
of-insert k p q m = ground (arith, lookup-insert k p q m)

of-save_unacked :
    (p : Text) (m : Dict (Text × Msg)) (out : Dict (List Msg))
    → of p (save_unacked m out) ≡ of p out ++ unacked_to p m
unfolding save_unacked unacked_to
of-save_unacked p [] out = sym (append-nil (of p out))
of-save_unacked p ((id, (k, x)) ∷ m) out =
    of-save_unacked p m (insert k (of k out ++ x ∷ []) out)
    ∙ ap (λ t. t ++ unacked_to p m) (of-insert k p (of k out ++ x ∷ []) out)
    ∙ elim (Bool-cases (text_eq k p)) [
      | inl e ↦ rw e (
          ap (λ j. (of j out ++ x ∷ []) ++ unacked_to p m) (text_eq_sound k p e)
          ∙ append_assoc (of p out) (x ∷ []) (unacked_to p m))
      | inr e ↦ rw e refl
    ]

-- A map whose keys are different has nothing more for its first key.
of_absent : (p : Text) (m : Dict (List Msg)) → contains_key p m ≡ false → of p m ≡ []
unfolding contains_key waiting
of_absent p m h = ground arith

of-head :
    (p k : Text) (q : List Msg) (m : Dict (List Msg)) → text_eq k p ≡ true → of p ((k, q) ∷ m) ≡ q
unfolding lookup waiting
of-head p k q m e = rw e refl

of-save_outbox :
    (p : Text) (m out : Dict (List Msg))
    → HasUniqueKeys m
    → of p (save_outbox m out) ≡ of p out ++ of p m
unfolding save_outbox HasUniqueKeys
of-save_outbox p [] out u = sym (unfold waiting lookup in append-nil (of p out))
of-save_outbox p ((k, q) ∷ m) out u =
    of-save_outbox p m (insert k (of k out ++ q) out) u.1
    ∙ ap (λ t. t ++ of p m) (of-insert k p (of k out ++ q) out)
    ∙ elim (Bool-cases (text_eq k p)) [
      | inl e ↦
          let here : k ≡ p = text_eq_sound k p e in
          let none_later : of p m ≡ [] =
            of_absent p m (subst (λ j. contains_key j m ≡ false) here u.0) in
          rw e (
            ap (λ j. (of j out ++ q) ++ of p m) here
            ∙ ap (λ t. (of p out ++ q) ++ t) none_later
            ∙ append-nil (of p out ++ q)
            ∙ ap (λ t. of p out ++ t) (sym (of-head p k q m e)))
      | inr e ↦ rw e (unfold lookup in rw e refl)
    ]

-- Stopping and starting again keeps, for every machine that is still trusted, all messages that it
-- has not confirmed and all that wait for it, in this order, and the events in the queues.
pub restore-saved :
    (cfg : Config) (s : State) (p : Text)
    → HasUniqueKeys s.outbox
    → has_peer p cfg ≡ true
    → (waiting (lookup p (restore cfg (saved s)).outbox)
        ≡ unacked_to p s.unacked ++ waiting (lookup p s.outbox))
      × ((restore cfg (saved s)).queues ≡ s.queues)
unfolding restore saved
restore-saved cfg s p u h = (
  ap waiting (lookup-retain_entries (λ k. has_peer k cfg) p _ ∙ rw h refl)
      ∙ of-save_outbox p s.outbox (save_unacked s.unacked []) u
      ∙ ap (λ t. t ++ waiting (lookup p s.outbox)) (of-save_unacked p s.unacked [])
      ∙ (unfold waiting lookup in refl),
  refl,
)
