-- ===== src/Node/Queues/Refinement.antt =====
-- node.rs: what the node does with its waiting events refines a set of mailboxes.
use agora_protocol.Base.{
  ℕ, ◌≡◌, refl, sym, ap, ◌∙◌, subst, Bool, true, false, not, inl, inr, ◌⊎◌, List, [], ◌∷◌, ◌++◌,
  map, Option, Text, text_eq, text_eq_refl, text_eq_sound, mem_text, any, retain, Bool-cases,
  if◌then◌else◌,
}
use agora_protocol.Base.Result.{Result, ok, err, is_ok, eq_of_ok}
use agora_protocol.Base.Dict.{Dict}
use agora_protocol.Config.Names.{valid_name}
use agora_protocol.Config.Types.{Config}
use agora_protocol.Node.Types.{Event, Session, State}
use agora_protocol.Node.Queues.{
  any_agent, roomy, queue_of, drop_oldest, readdress, push_all, finish, put, deliver, targets,
  inbox, ack, register, no_room, DeliverError,
}
use agora_protocol.Node.Queues.Bounds.{queues-finish, targets-one}
use agora_protocol.Node.Queues.Order.{queue_of-ack, is_ok-finish, one_target}
use agora_protocol.Node.Queues.Sessions.{queue_of-remove, register-queues}
use agora_protocol.Node.Queues.Mailbox.{
  Mailbox, view, IsSuffix, IsSuffix-refl, IsSuffix-trans, make_room-IsSuffix, drop_oldest-IsSuffix,
  push_event-lists, session_name-any,
}
use agora_protocol.Node.Queues.Calls.{
  Call, delivers, looks, acks, opens, perform, perform_all, Posted, Thinned, Delivered, Allows,
  AllowsAll, AreNamed,
}

finish-Delivered :
    (command : List Text) (starts : Bool) (now : ℕ) (to : Text) (ev : Event) (m : Mailbox)
    (r : Result DeliverError Bool × State)
    → Delivered (is_ok r.0) ev m (view r.1)
    → Delivered
        (is_ok (finish command starts now to r).0)
        ev
        m
        (view (finish command starts now to r).1)
finish-Delivered command starts now to ev m (err e, s) h = unfold finish in h
finish-Delivered command starts now to ev m (ok live, s) h =
    rw (is_ok-finish command starts now to live s) (
      subst (λ q. Posted ev m (λ k. queue_of k q))
        (sym (queues-finish command starts now to (ok live, s))) h)

push_one-Delivered :
    (ev : Event) (t : Text) (m : Mailbox) (s : State)
    → (text_eq ev.to any_agent ≡ true) ⊎ (t ≡ ev.to)
    → Thinned m (view s)
    → Delivered
        (is_ok (push_all ev (t ∷ []) s false).0)
        ev
        m
        (view (push_all ev (t ∷ []) s false).1)
unfolding push_all
push_one-Delivered ev t m s named thin = elim (Bool-cases (no_room t s.queues)) [
  | inl e ↦ rw (e, push_all) thin
  | inr e ↦
      rw (e, push_all)
        (
          t,
          drop_oldest (queue_of t s.queues),
          named,
          IsSuffix-trans _ _ _ (drop_oldest-IsSuffix (queue_of t s.queues)) (thin t),
          push_event-lists ev t s t ∙ rw (text_eq_refl t) refl,
          λ k. elim (Bool-cases (text_eq t k)) [
            | inl h ↦ inl h
            | inr h ↦ inr (
                subst (λ q. IsSuffix q (m k)) (sym (push_event-lists ev t s k ∙ rw h refl))
                  (thin k))
          ],
        )
]

put_one-Delivered :
    (cfg : Config) (starts : Bool) (now : ℕ) (ev : Event) (t : Text) (s : State)
    → (text_eq ev.to any_agent ≡ true) ⊎ (t ≡ ev.to)
    → Delivered
        (is_ok (put cfg starts now ev (t ∷ []) s).0)
        ev
        (view s)
        (view (put cfg starts now ev (t ∷ []) s).1)
unfolding put roomy
put_one-Delivered cfg starts now ev t s named =
    elim (Bool-cases (any (λ u. no_room u s.queues) (t ∷ []))) [
      | inl e ↦ rw (e, put) (λ k. IsSuffix-refl (queue_of k s.queues))
      | inr e ↦
          rw (e, put)
            (finish-Delivered cfg.wake starts now ev.to ev (view s) _
              (push_one-Delivered ev t (view s) _ named (λ k. make_room-IsSuffix _ _ _ s.queues k)))
    ]

named-target :
    (to : Text) (m : Dict Session) (t : Text)
    → targets to m ≡ ok (t ∷ [])
    → (text_eq to any_agent ≡ true) ⊎ (t ≡ to)
named-target to m t h = elim (Bool-cases (text_eq to any_agent)) [
  | inl n ↦ inl n
  | inr n ↦
      let same : (t ∷ []) ≡ (to ∷ []) = eq_of_ok (t ∷ []) (to ∷ []) (sym h ∙ one_target to m n) in
      inr (cc)
]

deliver-Delivered :
    (cfg : Config) (starts : Bool) (now : ℕ) (ev : Event) (s : State)
    → Delivered
        (is_ok (deliver cfg starts now ev s).0)
        ev
        (view s)
        (view (deliver cfg starts now ev s).1)
unfolding deliver
deliver-Delivered cfg starts now ev s = by_targets (targets ev.to s.sessions) refl
  where
    by_targets :
        (r : Result DeliverError (List Text))
        → targets ev.to s.sessions ≡ r
        → Delivered
            (is_ok (deliver cfg starts now ev s).0)
            ev
            (view s)
            (view (deliver cfg starts now ev s).1)
    by_targets (err e) h = rw (h, deliver) (λ k. IsSuffix-refl (queue_of k s.queues))
    by_targets (ok ts) h =
        let (t, one) = targets-one ev.to s.sessions ts h in
        rw (h, deliver, one)
          (put_one-Delivered cfg starts now ev t s
            (named-target ev.to s.sessions t (h ∙ ap ok one)))

acks-lists :
    (me : Text) (ids : List Text) (s : State) (k : Text)
    → queue_of k (ack me ids s).queues ≡ (
        if text_eq me k
        then retain (λ e. not (mem_text e.id ids)) (queue_of me s.queues)
        else queue_of k s.queues)
acks-lists me ids s k = elim (Bool-cases (text_eq me k)) [
  | inl e ↦ rw e (
      ap (λ i. queue_of i (ack me ids s).queues) (sym (text_eq_sound me k e))
      ∙ (queue_of-ack me ids s).0)
  | inr e ↦ rw e ((queue_of-ack me ids s).1 k e)
]

register-any :
    (cfg : Config) (user : Option Text) (want : Text) (about : Option Text) (sid : ℕ) (s : State)
    → valid_name want ≡ true
    → text_eq any_agent (register cfg user want about sid s).0 ≡ false
unfolding register
register-any cfg user want about sid s h = session_name-any want s.sessions h

opens-lists :
    (cfg : Config) (user : Option Text) (want : Text) (about : Option Text) (sid : ℕ) (s : State)
    → text_eq any_agent (register cfg user want about sid s).0 ≡ false
    → (k : Text)
    → queue_of k (register cfg user want about sid s).1.queues ≡ (
        if text_eq (register cfg user want about sid s).0 k
        then queue_of (register cfg user want about sid s).0 s.queues
          ++ map (readdress (register cfg user want about sid s).0) (queue_of any_agent s.queues)
        else if text_eq any_agent k
        then []
        else queue_of k s.queues)
opens-lists cfg user want about sid s star k =
    let r = register cfg user want about sid s in
    let q = register-queues cfg user want about sid s r.0 r.1 refl star in
    elim (Bool-cases (text_eq r.0 k)) [
      | inl e ↦ rw e (ap (λ i. queue_of i r.1.queues) (sym (text_eq_sound r.0 k e)) ∙ q.2)
      | inr e ↦ elim (Bool-cases (text_eq any_agent k)) [
        | inl f ↦
            rw (e, f) (ap (λ i. queue_of i r.1.queues) (sym (text_eq_sound any_agent k f)) ∙ q.3)
        | inr f ↦ rw (e, f) (q.4 k e f)
      ]
    ]

perform-Allows :
    (c : Call) (s : State)
    → AreNamed (c ∷ [])
    → Allows c (view s) (perform c s).0 (view (perform c s).1)
unfolding perform inbox
perform-Allows (delivers cfg starts now ev) s h = deliver-Delivered cfg starts now ev s
perform-Allows (looks me) s h = (refl, λ k. queue_of-remove me k s.queues)
perform-Allows (acks me ids) s h = acks-lists me ids s
perform-Allows (opens cfg user want about sid) s h =
    opens-lists cfg user want about sid s (register-any cfg user want about sid s h.0)

AreNamed-tail : (c : Call) (cs : List Call) → AreNamed (c ∷ cs) → AreNamed (c ∷ []) × AreNamed cs
AreNamed-tail (delivers cfg starts now ev) cs h = (tt, h)
AreNamed-tail (looks me) cs h = (tt, h)
AreNamed-tail (acks me ids) cs h = (tt, h)
AreNamed-tail (opens cfg user want about sid) cs h = ((h.0, tt), h.1)

-- Whatever calls are made, in whatever order and from whatever state, the queues of the node are
-- mailboxes: a look returns the whole mailbox and empties it, and touches no other; what an agent has
-- acted on leaves its mailbox and the rest keeps its order; a new session under a valid name finds what
-- waited for its name and then what waited for any agent; an accepted event stands at the end of
-- one mailbox, the addressed one when it names an agent. Nothing else is lost but the oldest events
-- of a mailbox, and those only in a delivery.
pub perform_all-AllowsAll :
    (cs : List Call) (s : State)
    → AreNamed cs
    → AllowsAll cs (view s) (perform_all cs s).0 (view (perform_all cs s).1)
unfolding perform_all
perform_all-AllowsAll [] s h = λ k. refl
perform_all-AllowsAll (c ∷ cs) s h =
    let n = AreNamed-tail c cs h in
    (view (perform c s).1, perform-Allows c s n.0, perform_all-AllowsAll cs (perform c s).1 n.1)
