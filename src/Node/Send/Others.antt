-- ===== src/Node/Send/Others.antt =====
-- node.rs: a message stays kept over answers for other messages, changes of the configuration and restarts.
use agora_protocol.Base.{
  ◌≡◌, refl, sym, ◌∙◌, subst, Bool, true, false, ◌&&◌, inl, inr, List, [], ◌∷◌, ◌++◌, Option, none,
  some, Bool-cases, Text, text_eq, text_eq_sound, text_eq_comm, All, All-append, arith,
  if◌then◌else◌,
}
use agora_protocol.Base.Members.{IsIn, IsIn-left, IsIn-right}
use agora_protocol.Base.Dict.{
  Dict, lookup, retain_entries, lookup-retain_entries, AllValues, AllValues-remove, HasUniqueKeys,
  HasUniqueKeys-insert, HasUniqueKeys-retain_entries,
}
use agora_protocol.Config.Types.{Config}
use agora_protocol.Config.Peers.{has_peer}
use agora_protocol.Node.Types.{Msg, State}
use agora_protocol.Node.Links.{waiting, on_ack, belongs}
use agora_protocol.Node.Links.Pending.{on_ack_lem}
use agora_protocol.Node.Send.{restore, saved, save_unacked, save_outbox}
use agora_protocol.Node.Send.Restart.{restore-saved}
use agora_protocol.Node.Send.Kept.{IsOwn, IsNoted, All-unacked_to, IsIn-unacked_to}
use agora_protocol.Node.Send.Steps.{IsKept}

HasUniqueKeys-save_unacked :
    (u : Dict (Text × Msg)) (out : Dict (List Msg))
    → HasUniqueKeys out
    → HasUniqueKeys (save_unacked u out)
unfolding save_unacked
HasUniqueKeys-save_unacked [] out h = h
HasUniqueKeys-save_unacked ((id, (p, x)) ∷ u) out h =
    HasUniqueKeys-save_unacked u _ (HasUniqueKeys-insert p (waiting (lookup p out) ++ x ∷ []) out h)

HasUniqueKeys-save_outbox :
    (o out : Dict (List Msg)) → HasUniqueKeys out → HasUniqueKeys (save_outbox o out)
unfolding save_outbox
HasUniqueKeys-save_outbox [] out h = h
HasUniqueKeys-save_outbox ((p, q) ∷ o) out h =
    HasUniqueKeys-save_outbox o _ (HasUniqueKeys-insert p (waiting (lookup p out) ++ q) out h)

module _ (peer : Text) (m : Msg) where
  IsNoted-on_ack :
      (sanitize : Text → Text) (p id : Text) (done : Bool) (status : Text) (s : State)
      → IsNoted peer m s.unacked
      → IsNoted peer m (on_ack sanitize p id done status s).unacked
  unfolding on_ack
  IsNoted-on_ack sanitize p id done status s h =
      elim (Bool-cases (belongs p (lookup id s.unacked))) [
        | inl e ↦ rw e (AllValues-remove _ id s.unacked h)
        | inr e ↦ rw e h
      ]

  nothing_waits : (p : Text) (o : Option (List Msg)) → o ≡ none → All (IsOwn peer m p) (waiting o)
  unfolding waiting
  nothing_waits p none e = tt
  nothing_waits p (some q) e = absurd (cc (e))

  -- An answer for another message, or of another peer.
  pub IsKept-on_ack :
      (sanitize : Text → Text) (p id : Text) (done : Bool) (status : Text) (s : State)
      → (text_eq id m.id && text_eq p peer) ≡ false
      → IsKept peer m s.unacked s.outbox
      → IsKept peer m (on_ack sanitize p id done status s).unacked s.outbox
  IsKept-on_ack sanitize p id done status s q h = record {
    held = elim h.held [
      | inl e ↦ inl ((on_ack_lem sanitize p id done status s).0 m.id ∙ kept e)
      | inr i ↦ inr i
    ];
    own = record {
      noted = IsNoted-on_ack sanitize p id done status s h.own.noted;
      queued = h.own.queued;
      unique = h.own.unique;
    };
  }
    where
      kept :
          lookup m.id s.unacked ≡ some (peer, m)
          → (if text_eq id m.id && belongs p (lookup id s.unacked)
              then none
              else lookup m.id s.unacked)
            ≡ some (peer, m)
      kept e = elim (Bool-cases (text_eq id m.id)) [
        | inr f ↦ rw f e
        | inl f ↦
            let at : lookup id s.unacked ≡ some (peer, m) =
              subst (λ j. lookup j s.unacked ≡ some (peer, m)) (sym (text_eq_sound id m.id f)) e in
            let far : text_eq peer p ≡ false = text_eq_comm peer p ∙ ground (arith, f, q) in
            rw (f, at, far) e
      ]

  pub IsKept-apply :
      (cfg : Config) (u : Dict (Text × Msg)) (out : Dict (List Msg))
      → has_peer peer cfg ≡ true
      → IsKept peer m u out
      → IsKept peer m u (retain_entries (λ k _. has_peer k cfg) out)
  IsKept-apply cfg u out t h = record {
    held = elim h.held [
      | inl e ↦ inl e
      | inr i ↦ inr (
          subst (λ r. IsIn m (waiting r))
            (sym (lookup-retain_entries (λ k. has_peer k cfg) peer out ∙ rw t refl)) i)
    ];
    own = record {
      noted = h.own.noted;
      queued = λ r.
          subst (λ o. All (IsOwn peer m r) (waiting o))
            (sym (lookup-retain_entries (λ k. has_peer k cfg) r out))
            (elim (Bool-cases (has_peer r cfg)) [
              | inl e ↦ rw e (h.own.queued r)
              | inr e ↦ rw e (unfold waiting in tt)
            ]);
      unique = HasUniqueKeys-retain_entries (λ k. has_peer k cfg) out h.own.unique;
    };
  }

  pub IsKept-restore :
      (cfg : Config) (s : State)
      → has_peer peer cfg ≡ true
      → IsKept peer m s.unacked s.outbox
      → IsKept peer m (restore cfg (saved s)).unacked (restore cfg (saved s)).outbox
  unfolding restore saved
  IsKept-restore cfg s t h = record {
    held = inr (
        subst (IsIn m) (sym (restore-saved cfg s peer h.own.unique t).0) (elim h.held [
          | inl e ↦ IsIn-left m _ _ (IsIn-unacked_to peer m m.id s.unacked e)
          | inr i ↦ IsIn-right m _ _ i
        ]));
    own = record {
      noted = unfold AllValues in tt;
      queued = λ r. elim (Bool-cases (has_peer r cfg)) [
        | inl e ↦
            subst (All (IsOwn peer m r)) (sym (restore-saved cfg s r h.own.unique e).0)
              (All-append _ _ _ (All-unacked_to peer m r s.unacked h.own.noted) (h.own.queued r))
        | inr e ↦ nothing_waits r _ (lookup-retain_entries (λ k. has_peer k cfg) r _ ∙ rw e refl)
      ];
      unique =
          HasUniqueKeys-retain_entries (λ k. has_peer k cfg) _
            (HasUniqueKeys-save_outbox s.outbox _
              (HasUniqueKeys-save_unacked s.unacked [] (unfold HasUniqueKeys in tt)));
    };
  }

  pub IsKept-same :
      (s t : State)
      → t.unacked ≡ s.unacked
      → t.outbox ≡ s.outbox
      → IsKept peer m s.unacked s.outbox
      → IsKept peer m t.unacked t.outbox
  IsKept-same s t e f h = rw (e, f) h
