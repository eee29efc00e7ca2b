-- ===== src/Node/Queues/Order.antt =====
-- node.rs: an event reaches the queue of its agent behind those that wait there, and `inbox` and
-- `ack` take out what was read.
use agora_protocol.Base.{
  ℕ, zero, suc, ◌+◌, ◌*◌, ◌≤◌, ◌<◌, ◌≡◌, refl, sym, ap, ◌∙◌, subst, Bool, true, false, not, inl,
  inr, List, [], ◌∷◌, ◌++◌, Option, none, some, Text, text_eq, text_eq_refl, text_eq_sound,
  mem_text, byte_len, length, retain, ltb, Bool-cases, Option-cases, arith, if◌then◌else◌,
}
use agora_protocol.Base.Dict.{Dict, lookup, insert, contains_key}
use agora_protocol.Base.Result.{ok, is_ok}
use agora_protocol.Config.Types.{Config}
use agora_protocol.Node.Types.{Session, Event, State}
use agora_protocol.Node.Queues.{
  queue_of, queue_of-some, queue_of-none, readdress, any_agent, queue_max, queued_bytes_max,
  queued_bytes, events, Queues, make_room, roomy, drop_oldest, no_room, push_event, push_all, put,
  finish, targets, deliver, inbox, ack, ack_queue,
}
use agora_protocol.Node.Queues.Bounds.{queues-finish}
use agora_protocol.Node.Queues.Sessions.{queue_of-insert, queue_of-remove}

-- Nothing is dropped while there is room.
make_room_id :
    (fuel need : ℕ) (m : Queues)
    → queued_bytes m + need ≤ queued_bytes_max
    → make_room fuel need (queued_bytes m) m ≡ m
unfolding make_room
make_room_id zero need m h = refl
make_room_id (suc fuel) need m h =
    elim (Bool-cases (ltb queued_bytes_max (queued_bytes m + need))) [
      | inl e ↦ absurd (ground arith)
      | inr e ↦ rw e refl
    ]

drop_oldest_id : (q : List Event) → length q < queue_max → drop_oldest q ≡ q
unfolding drop_oldest
drop_oldest_id [] h = refl
drop_oldest_id (e ∷ q) h = ground arith

-- An event that fits, addressed to one agent by name.
pub record Fits (ev : Event) (s : State) : Type 0 where
  pub named : text_eq ev.to any_agent ≡ false
  pub place : no_room ev.to s.queues ≡ false
  pub total : queued_bytes s.queues + byte_len ev.body ≤ queued_bytes_max
  pub queue : length (queue_of ev.to s.queues) < queue_max

pub is_ok-finish :
    (command : List Text) (starts : Bool) (now : ℕ) (to : Text) (live : Bool) (s : State)
    → is_ok (finish command starts now to (ok live, s)).0 ≡ true
unfolding finish
is_ok-finish command starts now to true s = refl
is_ok-finish command starts now to false s = refl

abbrev pushed : Event → Queues → Queues
pushed ev m = insert ev.to (queue_of ev.to m ++ ev ∷ []) m

queues-push_event :
    (ev : Event) (s : State)
    → length (queue_of ev.to s.queues) < queue_max
    → (push_event ev ev.to s).queues ≡ pushed ev s.queues
unfolding push_event readdress
queues-push_event ev s h =
    ap (λ q. insert ev.to (q ++ ev ∷ []) s.queues) (drop_oldest_id (queue_of ev.to s.queues) h)

pub one_target :
    (to : Text) (m : Dict Session) → text_eq to any_agent ≡ false → targets to m ≡ ok (to ∷ [])
unfolding targets
one_target to m h = rw h refl

roomy_id : (b : ℕ) (m : Queues) → queued_bytes m + b ≤ queued_bytes_max → roomy (b * 1) m ≡ m
unfolding roomy
roomy_id b m h = make_room_id (suc (events m)) (b * 1) m (omega arith)

put-Fits :
    (cfg : Config) (starts : Bool) (now : ℕ) (ev : Event) (s : State)
    → Fits ev s
    → put cfg starts now ev (ev.to ∷ []) s
      ≡ finish cfg.wake starts now ev.to (ok (contains_key ev.to s.sessions), push_event ev ev.to s)
unfolding put push_all
put-Fits cfg starts now ev s f =
    rw f.place (rw (roomy_id (byte_len ev.body) s.queues f.total) (rw f.place refl))

deliver-Fits :
    (cfg : Config) (starts : Bool) (now : ℕ) (ev : Event) (s : State)
    → Fits ev s
    → (is_ok (deliver cfg starts now ev s).0 ≡ true)
      × ((deliver cfg starts now ev s).1.queues ≡ pushed ev s.queues)
unfolding deliver
deliver-Fits cfg starts now ev s f =
    rw (one_target ev.to s.sessions f.named, deliver)
      (rw (put-Fits cfg starts now ev s f) (
        is_ok-finish cfg.wake starts now ev.to _ _,
        queues-finish cfg.wake starts now ev.to _ ∙ queues-push_event ev s f.queue,
      ))

-- An event for one agent, while its queue and the total have room, is accepted. The agent's next look
-- into its inbox returns what waited there before, in order, and then the event, and leaves nothing;
-- every other queue is as it was before the delivery.
pub deliver-inbox :
    (cfg : Config) (starts : Bool) (now : ℕ) (ev : Event) (s : State)
    → Fits ev s
    → (is_ok (deliver cfg starts now ev s).0 ≡ true)
      × ((inbox ev.to (deliver cfg starts now ev s).1).0 ≡ queue_of ev.to s.queues ++ ev ∷ [])
      × (queue_of ev.to (inbox ev.to (deliver cfg starts now ev s).1).1.queues ≡ [])
      × ((j : Text)
          → text_eq ev.to j ≡ false
          → queue_of j (inbox ev.to (deliver cfg starts now ev s).1).1.queues ≡ queue_of j s.queues)
unfolding inbox
deliver-inbox cfg starts now ev s f =
    let d = deliver-Fits cfg starts now ev s f in
    (
      d.0,
      ap (queue_of ev.to) d.1
          ∙ queue_of-insert ev.to ev.to _ s.queues
          ∙ rw (text_eq_refl ev.to) refl,
      queue_of-remove ev.to ev.to _ ∙ rw (text_eq_refl ev.to) refl,
      λ j h.
          queue_of-remove ev.to j _
          ∙ rw h (ap (queue_of j) d.1 ∙ queue_of-insert ev.to j _ s.queues ∙ rw h refl),
    )

ack_queues : Text → List Text → Option (List Event) → Queues → Queues
unfolding ack_queue
ack_queues me ids none m = m
ack_queues me ids (some q) m = ack_queue me (retain (λ e. not (mem_text e.id ids)) q) m

queue_of-ack_queue :
    (me j : Text) (q : List Event) (m : Queues)
    → queue_of j (ack_queue me q m) ≡ (if text_eq me j then q else queue_of j m)
unfolding ack_queue
queue_of-ack_queue me j [] m = queue_of-remove me j m
queue_of-ack_queue me j (e ∷ q) m = queue_of-insert me j (e ∷ q) m

queue_of-ack_queues :
    (me j : Text) (ids : List Text) (o : Option (List Event)) (m : Queues)
    → lookup me m ≡ o
    → queue_of j (ack_queues me ids o m) ≡ (
        if text_eq me j
        then retain (λ e. not (mem_text e.id ids)) (queue_of me m)
        else queue_of j m)
unfolding ack_queues
queue_of-ack_queues me j ids none m h = elim (Bool-cases (text_eq me j)) [
  | inl e ↦ rw e (
      subst (λ k. queue_of k m ≡ retain (λ x. not (mem_text x.id ids)) (queue_of me m))
        (text_eq_sound me j e)
        (queue_of-none m me h
          ∙ ap (retain (λ x. not (mem_text x.id ids))) (sym (queue_of-none m me h))))
  | inr e ↦ rw e refl
]
queue_of-ack_queues me j ids (some q) m h =
    queue_of-ack_queue me j _ m ∙ rw (queue_of-some m me q h) refl

retain-no_ids : (q : List Event) → retain (λ e. not (mem_text e.id [])) q ≡ q
unfolding mem_text
retain-no_ids [] = refl
retain-no_ids (e ∷ q) = ap (λ t. e ∷ t) (retain-no_ids q)

-- `ack` takes exactly the pushed events out of the agent's queue, keeps the others in order, and
-- leaves every other queue alone.
pub queue_of-ack :
    (me : Text) (ids : List Text) (s : State)
    → (queue_of me (ack me ids s).queues
        ≡ retain (λ e. not (mem_text e.id ids)) (queue_of me s.queues))
      × ((j : Text) → text_eq me j ≡ false → queue_of j (ack me ids s).queues ≡ queue_of j s.queues)
unfolding ack
queue_of-ack me [] s = (sym (retain-no_ids (queue_of me s.queues)), λ j h. refl)
queue_of-ack me (i ∷ ids) s = (after me ∙ rw (text_eq_refl me) refl, λ j h. after j ∙ rw h refl)
  where
    ack_elim : (ack me (i ∷ ids) s).queues ≡ ack_queues me (i ∷ ids) (lookup me s.queues) s.queues
    ack_elim = elim (Option-cases (lookup me s.queues)) [
      | inl e ↦ rw e (unfold ack_queues in refl)
      | inr (q, e) ↦ rw e (unfold ack_queues in refl)
    ]

    after :
        (j : Text)
        → queue_of j (ack me (i ∷ ids) s).queues ≡ (
            if text_eq me j
            then retain (λ e. not (mem_text e.id (i ∷ ids))) (queue_of me s.queues)
            else queue_of j s.queues)
    after j =
        ap (queue_of j) ack_elim
        ∙ queue_of-ack_queues me j (i ∷ ids) (lookup me s.queues) s.queues refl
