-- ===== src/Relay/Server/Limits.antt =====
-- relay.rs: the limits on tunnels and waiting calls hold at every moment, whatever tasks and machines do
-- and in whatever order.
use agora_protocol.Base.{
  ℕ, zero, suc, ◌≤◌, ◌≡◌, refl, sym, ap, ◌∙◌, inl, inr, Option, none, some, Option-cases,
  Bool-cases, Text, Bytes, length, leb, arith, ◌==◌,
}
use agora_protocol.Base.Dict.{lookup, length-insert, length-remove}
use agora_protocol.Relay.Server.{
  tunnels_per_member, pending_max, Pending, Relay, count_of, start_listening, stop_listening,
  is_listener, call, reserve, free_slot, enqueue, forget, is_called, take_call, Task, Move, begin,
  reserve_slot, refuse_full, look_up, refuse_offline, store, refuse_busy, announce, answered,
  unanswered, release, close, System, start_system, deliver_mail, Step, move, take, take_lost,
  listen, unlisten, Reach, started, later,
}
use agora_protocol.Relay.Server.Slots.{
  weight, open_tunnels, open_tunnels-set_task, weight-le-open_tunnels, Move-Counts,
}

-- What holds at every moment: the counter of a member is the number of its tunnels, and at most
-- `TUNNELS_PER_MEMBER`; no more than `PENDING_MAX` calls wait.
pub record HasSlots (n : ℕ) (s : System) : Type 0 where
  pub counted : (k : Bytes) → count_of k s.relay.tunnels ≡ open_tunnels k n s.task
  pub limited : (k : Bytes) → count_of k s.relay.tunnels ≤ tunnels_per_member
  pub room : length s.relay.pending ≤ pending_max

abbrev IsRoomy : Relay → Type 0
IsRoomy s = length s.pending ≤ pending_max

IsRoomy-enqueue :
    (token : Text) (to : Bytes) (me : ℕ) (s : Relay) → IsRoomy s → IsRoomy (enqueue token to me s).1
unfolding enqueue
IsRoomy-enqueue token to me s h = elim (Bool-cases (leb pending_max (length s.pending))) [
  | inl e ↦ rw e h
  | inr e ↦ rw e (ground (arith, e, length-insert token (record { to = to; task = me }) s.pending))
]

IsRoomy-forget : (token : Text) (s : Relay) → IsRoomy s → IsRoomy (forget token s)
unfolding forget
IsRoomy-forget token s h = omega (arith, h, length-remove token s.pending)

IsRoomy-free_slot : (key : Bytes) (s : Relay) → IsRoomy s → IsRoomy (free_slot key s)
unfolding free_slot
IsRoomy-free_slot key s h = elim (Option-cases (lookup key s.tunnels)) [
  | inl e ↦ rw (free_slot, e) h
  | inr (c, e) ↦ rw (free_slot, e) h
]

IsRoomy-reserve : (key : Bytes) (s : Relay) → IsRoomy s → IsRoomy (reserve key s).1
unfolding reserve
IsRoomy-reserve key s h = elim (Bool-cases (leb tunnels_per_member (count_of key s.tunnels))) [
  | inl e ↦ rw e h
  | inr e ↦ rw e h
]

IsRoomy-call :
    (to : Bytes) (id : ℕ) (c : Text × Bytes) (s : Relay) → IsRoomy s → IsRoomy (call to id c s)
unfolding call
IsRoomy-call to id c s h = elim (Option-cases (lookup to s.listening)) [
  | inl e ↦ rw (call, e) h
  | inr (l, e) ↦ rw (call, e) (elim (Bool-cases (l.0 == id)) [ inl b ↦ rw b h | inr b ↦ rw b h ])
]

Move-IsRoomy :
    (me : ℕ) {s : Relay} {t : Task} {s' : Relay} {t' : Task}
    → Move me s t s' t'
    → IsRoomy s
    → IsRoomy s'
Move-IsRoomy me (begin key to e) h = h
Move-IsRoomy me {s} {t} (reserve_slot e f) h = IsRoomy-reserve t.key s h
Move-IsRoomy me {s} {t} (refuse_full e f) h = IsRoomy-reserve t.key s h
Move-IsRoomy me (look_up id calls e f) h = h
Move-IsRoomy me (refuse_offline e f) h = h
Move-IsRoomy me {s} {t} (store id token e f) h = IsRoomy-enqueue token t.to me s h
Move-IsRoomy me (refuse_busy id token e f) h = h
Move-IsRoomy me {s} {t} (announce id token e) h = IsRoomy-call t.to id (token, t.key) s h
Move-IsRoomy me {s} (answered token who e m) h = IsRoomy-forget token s h
Move-IsRoomy me {s} (unanswered token e) h = IsRoomy-forget token s h
Move-IsRoomy me {s} {t} (release e) h = IsRoomy-free_slot t.key s h
Move-IsRoomy me {s} {t} (close who e) h = IsRoomy-free_slot t.key s h

weight-deliver_mail :
    (k key : Bytes) (o : Option Pending) (f : ℕ → Task) (j : ℕ)
    → weight k (deliver_mail key o f j) ≡ weight k (f j)
unfolding deliver_mail
weight-deliver_mail k key none f j = refl
weight-deliver_mail k key (some p) f j = elim (Bool-cases (p.task == j)) [
  | inl e ↦ let same : p.task ≡ j = ground (arith, e) in rw e (ap (λ i. weight k (f i)) same)
  | inr e ↦ rw e refl
]

open_tunnels-deliver_mail :
    (k key : Bytes) (o : Option Pending) (n : ℕ) (f : ℕ → Task)
    → open_tunnels k n (deliver_mail key o f) ≡ open_tunnels k n f
unfolding open_tunnels
open_tunnels-deliver_mail k key o zero f = refl
open_tunnels-deliver_mail k key o (suc n) f =
    omega (arith, weight-deliver_mail k key o f n, open_tunnels-deliver_mail k key o n f)

tunnels-take_call :
    (key : Bytes) (token : Text) (s : Relay) → (take_call key token s).1.tunnels ≡ s.tunnels
unfolding take_call forget
tunnels-take_call key token s = elim (Option-cases (is_called key (lookup token s.pending))) [
  | inl e ↦ rw (take_call, e) refl
  | inr (p, e) ↦ rw (take_call, e) refl
]

IsRoomy-take_call :
    (key : Bytes) (token : Text) (s : Relay) → IsRoomy s → IsRoomy (take_call key token s).1
unfolding take_call
IsRoomy-take_call key token s h = elim (Option-cases (is_called key (lookup token s.pending))) [
  | inl e ↦ rw (take_call, e) h
  | inr (p, e) ↦ rw (take_call, e) (IsRoomy-forget token s h)
]

-- A step of the relay that leaves the counters alone.
HasSlots-same :
    (n : ℕ) (s t : System)
    → t.relay.tunnels ≡ s.relay.tunnels
    → ((k : Bytes) → open_tunnels k n t.task ≡ open_tunnels k n s.task)
    → IsRoomy t.relay
    → HasSlots n s
    → HasSlots n t
HasSlots-same n s t e o r h = record {
  counted = λ k. ap (count_of k) e ∙ h.counted k ∙ sym (o k);
  limited = λ k. omega (arith, ap (count_of k) e, h.limited k);
  room = r;
}

Step-HasSlots : (n : ℕ) {s t : System} → Step n s t → HasSlots n s → HasSlots n t
unfolding start_listening stop_listening
Step-HasSlots n {s} (move i l m) h = record {
  counted = λ k.
      let c =
        Move-Counts k i m (h.limited k)
          (omega (arith, h.counted k, weight-le-open_tunnels k n i s.task l)) in
      omega (arith, c.change, h.counted k, open_tunnels-set_task k n i _ s.task l);
  limited = λ k.
      (Move-Counts k i m (h.limited k)
        (omega (arith, h.counted k, weight-le-open_tunnels k n i s.task l))).limit;
  room = Move-IsRoomy i m h.room;
}
Step-HasSlots n {s} (take key token) h =
    HasSlots-same n s _ (tunnels-take_call key token s.relay)
      (λ k. open_tunnels-deliver_mail k key (take_call key token s.relay).0 n s.task)
      (IsRoomy-take_call key token s.relay h.room) h
Step-HasSlots n {s} (take_lost key token) h =
    HasSlots-same n s _ (tunnels-take_call key token s.relay) (λ k. refl)
      (IsRoomy-take_call key token s.relay h.room) h
Step-HasSlots n {s} (listen key) h = HasSlots-same n s _ refl (λ k. refl) h.room h
Step-HasSlots n {s} (unlisten key id) h =
    elim (Bool-cases (is_listener id (lookup key s.relay.listening))) [
      | inl e ↦ rw e (HasSlots-same n s _ refl (λ k. refl) h.room h)
      | inr e ↦ rw e h
    ]

open_tunnels-start : (k : Bytes) (n : ℕ) → open_tunnels k n start_system.task ≡ 0
unfolding open_tunnels
open_tunnels-start k zero = refl
open_tunnels-start k (suc n) = omega (arith, open_tunnels-start k n)

-- However the tasks of the relay interleave, and whichever machines come, go and take calls: at every
-- moment the counter of a member is the number of its tunnels, which is at most 32, and at most
-- 256 calls wait to be taken. So no slot is lost when a connection fails, and none is freed twice.
pub Reach-HasSlots : (n : ℕ) {s : System} → Reach n s → HasSlots n s
Reach-HasSlots n started = record {
  counted = λ k. unfold count_of lookup in sym (open_tunnels-start k n);
  limited = λ k. unfold count_of lookup in omega arith;
  room = omega arith;
}
Reach-HasSlots n (later r st) = Step-HasSlots n st (Reach-HasSlots n r)
