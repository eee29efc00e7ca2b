-- ===== src/Node/Queues/Bounds.antt =====
-- node.rs: `deliver` keeps the bounds of the waiting queues, whatever is delivered.
use agora_protocol.Base.{
  ℕ, zero, suc, ◌+◌, ◌*◌, ◌≤◌, ◌<◌, ◌≡◌, refl, subst, Bool, true, false, inl, inr, List, [], ◌∷◌,
  ◌++◌, Option, none, some, Text, text_eq, text_eq_iff, text_eq_refl, byte_len, any, length,
  length-append, ltb, arith, Bool-cases, Option-cases,
}
use native.Mathlib.Decide.{dec_lt}
use agora_protocol.Base.Dict.{
  Dict, lookup, insert, contains_key, keys, HasUniqueKeys, HasUniqueKeys-insert, AllValues,
  AllValues-insert, AllValues-lookup, length-insert,
}
use agora_protocol.Base.Result.{Result, ok, err}
use agora_protocol.Config.Types.{Config}
use agora_protocol.Node.Types.{Event, Session, State}
use agora_protocol.Node.Queues.{
  Queues, queue_max, queues_max, queued_bytes_max, queue_bytes, queued_bytes, largest, later_max,
  front_of, make_room, events, queue_of, queue_of-some, drop_oldest, no_room, push_event, push_all,
  readdress, roomy, put, deliver, targets, DeliverError, any_agent, finish, wake,
}

-- A waiting queue is no longer than `QUEUE_MAX`.
abbrev pub IsShort : List Event → Type 0
IsShort q = length q ≤ queue_max

pub record IsBounded (m : Queues) : Type 0 where
  pub unique : HasUniqueKeys m
  pub few : length m ≤ queues_max
  pub short : AllValues IsShort m
  pub light : queued_bytes m ≤ queued_bytes_max

queue_bytes-append : (p q : List Event) → queue_bytes (p ++ q) ≡ queue_bytes p + queue_bytes q
unfolding queue_bytes
queue_bytes-append [] q = omega arith
queue_bytes-append (e ∷ p) q = omega (arith, queue_bytes-append p q)

-- Writing one queue changes the sums by the difference of the two.
queued_bytes-insert :
    (k : Text) (q : List Event) (m : Queues)
    → queued_bytes (insert k q m) + queue_bytes (queue_of k m) ≡ queued_bytes m + queue_bytes q
unfolding queued_bytes insert queue_of lookup queue_bytes
queued_bytes-insert k q [] = omega arith
queued_bytes-insert k q ((j, w) ∷ m) = ground (arith, queued_bytes-insert k q m)

events-insert :
    (k : Text) (q : List Event) (m : Queues)
    → events (insert k q m) + length (queue_of k m) ≡ events m + length q
unfolding events insert queue_of lookup
events-insert k q [] = omega arith
events-insert k q ((j, w) ∷ m) = ground (arith, events-insert k q m)

-- The queue that `largest` names, with its bytes.
abbrev Names : Queues → Text × ℕ → Type 0
Names m (k, n) = (q : List Event) × (lookup k m ≡ some q) × (queue_bytes q ≡ n)

Names-head : (j : Text) (w : List Event) (m : Queues) → Names ((j, w) ∷ m) (j, queue_bytes w)
unfolding lookup
Names-head j w m = (w, rw text_eq_refl refl, refl)

Names-tail :
    (j : Text) (w : List Event) (m : Queues) (c : Text × ℕ)
    → contains_key j m ≡ false
    → Names m c
    → Names ((j, w) ∷ m) c
unfolding lookup contains_key
Names-tail j w m (k, n) fresh (q, e, b) = (q, ground (arith, text_eq_iff j k), b)

Names-later_max :
    (j : Text) (w : List Event) (m : Queues) (o : Option (Text × ℕ))
    → contains_key j m ≡ false
    → ((c : Text × ℕ) → o ≡ some c → Names m c)
    → Names ((j, w) ∷ m) (later_max j (queue_bytes w) o)
unfolding later_max
Names-later_max j w m none fresh h = Names-head j w m
Names-later_max j w m (some (i, b)) fresh h = elim (Bool-cases (ltb b (queue_bytes w))) [
  | inl e ↦ rw e (Names-head j w m)
  | inr e ↦ rw e (Names-tail j w m (i, b) fresh (h (i, b) refl))
]

-- The largest queue is in the map, and it has as many bytes as is said of it.
largest-Names : (m : Queues) (c : Text × ℕ) → HasUniqueKeys m → largest m ≡ some c → Names m c
unfolding largest HasUniqueKeys
largest-Names [] c u h = absurd (ground arith)
largest-Names ((j, w) ∷ m) c u h =
    subst (Names ((j, w) ∷ m)) (ground arith)
      (Names-later_max j w m (largest m) u.0 (λ d e. largest-Names m d u.1 e))

-- The bytes that the largest queue has.
largest_bytes : Option (Text × ℕ) → ℕ
largest_bytes none = 0
largest_bytes (some (k, n)) = n

largest_bytes-later_max :
    (k : Text) (n : ℕ) (o : Option (Text × ℕ))
    → (n ≤ (later_max k n o).1) × (largest_bytes o ≤ (later_max k n o).1)
unfolding later_max largest_bytes
largest_bytes-later_max k n none = omega arith
largest_bytes-later_max k n (some (j, b)) = ground arith

largest-pos : (m : Queues) → 0 < queued_bytes m → 0 < largest_bytes (largest m)
unfolding queued_bytes largest largest_bytes
largest-pos [] h = absurd (omega arith)
largest-pos ((k, q) ∷ m) h = elim (dec_lt 0 (queued_bytes m)) [
  | yes p ↦ omega (arith, largest-pos m p, largest_bytes-later_max k (queue_bytes q) (largest m))
  | no p ↦ omega (arith, largest_bytes-later_max k (queue_bytes q) (largest m))
]

-- The event that the next turn of the loop drops, and the queue it is taken from.
abbrev Dropped : Queues → Type 0
Dropped m =
    (k : Text) × (e : Event) × (q : List Event) × (front_of (largest m) m ≡ some (k, e, q))
    × (lookup k m ≡ some (e ∷ q))

Dropped-from :
    (m : Queues) (k : Text) (n : ℕ) (q : List Event)
    → largest m ≡ some (k, n)
    → lookup k m ≡ some q
    → 0 < queue_bytes q
    → Dropped m
unfolding front_of queue_bytes
Dropped-from m k n [] l h b = absurd (omega arith)
Dropped-from m k n (e ∷ q) l h b = (k, e, q, rw (l, front_of) (rw (h, front_of) refl), h)

dropped : (m : Queues) → HasUniqueKeys m → 0 < queued_bytes m → Dropped m
dropped m u h = elim (Option-cases (largest m)) [
  | inl e ↦ absurd (unfold largest_bytes in omega (arith, rw e at (largest-pos m h)))
  | inr (c, e) ↦
      let d = largest-Names m c u e in
      Dropped-from m c.0 c.1 d.0 e d.1 (rw d.2 (unfold largest_bytes in rw e at (largest-pos m h)))
]

-- What the loop keeps, and what it has reached at its end.
record Room (need : ℕ) (m : Queues) : Type 0 where
  unique : HasUniqueKeys m
  few : length m ≤ queues_max
  short : AllValues IsShort m
  room : queued_bytes m + need ≤ queued_bytes_max

drop_turn :
    (need : ℕ) (m : Queues) (k : Text) (e : Event) (q : List Event)
    → lookup k m ≡ some (e ∷ q)
    → (queued_bytes m ≡ byte_len e.body + queued_bytes (insert k q m))
      × (events (insert k q m) + 1 ≡ events m)
      × (length (insert k q m) ≡ length m)
drop_turn need m k e q h = (
  unfold queue_bytes in
      omega (arith, rw (queue_of-some m k (e ∷ q) h) at (queued_bytes-insert k q m)),
  omega (arith, rw (queue_of-some m k (e ∷ q) h) at (events-insert k q m)),
  unfold contains_key in ground (arith, length-insert k q m),
)

make_room-Room :
    (fuel need : ℕ) (m : Queues)
    → need ≤ queued_bytes_max
    → events m < fuel
    → HasUniqueKeys m
    → length m ≤ queues_max
    → AllValues IsShort m
    → Room need (make_room fuel need (queued_bytes m) m)
unfolding make_room
make_room-Room zero need m fits f u l sh = absurd (omega arith)
make_room-Room (suc fuel) need m fits f u l sh =
    elim (Bool-cases (ltb queued_bytes_max (queued_bytes m + need))) [
      | inr e ↦ rw e (record { unique = u; few = l; short = sh; room = ground arith })
      | inl e ↦
          let d = dropped m u (ground arith) in
          let turn = drop_turn need m d.0 d.1 d.2 d.4 in
          let short_rest : IsShort d.2 =
            omega (arith, AllValues-lookup IsShort d.0 m (d.1 ∷ d.2) sh d.4) in
          rw (e, d.3)
            (subst (λ b. Room need (make_room fuel need b (insert d.0 d.2 m)))
              (omega (arith, turn.0))
              (make_room-Room fuel need (insert d.0 d.2 m) fits (omega (arith, turn.1))
                (HasUniqueKeys-insert d.0 d.2 m u) (omega (arith, turn.2))
                (AllValues-insert IsShort d.0 d.2 m short_rest sh)))
    ]

drop_oldest_short : (q : List Event) → IsShort q → length (drop_oldest q) < queue_max
unfolding drop_oldest
drop_oldest_short [] h = omega arith
drop_oldest_short (e ∷ q) h = ground arith

drop_oldest_light : (q : List Event) → queue_bytes (drop_oldest q) ≤ queue_bytes q
unfolding drop_oldest queue_bytes
drop_oldest_light [] = omega arith
drop_oldest_light (e ∷ q) = ground arith

queue_of-IsShort : (t : Text) (m : Queues) → AllValues IsShort m → IsShort (queue_of t m)
unfolding queue_of
queue_of-IsShort t m h = elim (Option-cases (lookup t m)) [
  | inl e ↦ rw (e, queue_of) (unfold queue_of in omega arith)
  | inr (q, e) ↦ rw (queue_of-some m t q e) (AllValues-lookup IsShort t m q h e)
]

push_queue-IsBounded :
    (ev : Event) (t : Text) (m : Queues)
    → Room (byte_len ev.body) m
    → no_room t m ≡ false
    → IsBounded (insert t (drop_oldest (queue_of t m) ++ readdress t ev ∷ []) m)
push_queue-IsBounded ev t m r free =
    let q : List Event = drop_oldest (queue_of t m) in
    let long = length-append q (readdress t ev ∷ []) in
    let heavy = queue_bytes-append q (readdress t ev ∷ []) in
    record {
      unique = HasUniqueKeys-insert t _ m r.unique;
      few = unfold no_room in ground (arith, length-insert t (q ++ readdress t ev ∷ []) m, r.few);
      short =
          AllValues-insert IsShort t _ m
            (omega (arith, long, drop_oldest_short (queue_of t m) (queue_of-IsShort t m r.short)))
            r.short;
      light =
          unfold queue_bytes readdress in
          omega (
            arith,
            queued_bytes-insert t (q ++ readdress t ev ∷ []) m,
            heavy,
            drop_oldest_light (queue_of t m),
            r.room,
          );
    }

Room-IsBounded : (need : ℕ) (m : Queues) → Room need m → IsBounded m
Room-IsBounded need m r = record {
  unique = r.unique;
  few = r.few;
  short = r.short;
  light = omega (arith, r.room);
}

-- `wake` leaves the queues alone.
pub queues-finish :
    (command : List Text) (starts : Bool) (now : ℕ) (to : Text)
    (r : Result DeliverError Bool × State)
    → (finish command starts now to r).1.queues ≡ r.1.queues
queues-finish command starts now to (err e, s) = unfold finish in refl
queues-finish command starts now to (ok true, s) = unfold finish in refl
queues-finish command starts now to (ok false, s) = unfold finish wake in ground arith

push_one-IsBounded :
    (ev : Event) (t : Text) (s : State)
    → Room (byte_len ev.body) s.queues
    → IsBounded (push_all ev (t ∷ []) s false).1.queues
unfolding push_all push_event
push_one-IsBounded ev t s r = elim (Bool-cases (no_room t s.queues)) [
  | inl e ↦ rw e (Room-IsBounded _ _ r)
  | inr e ↦ rw e (push_queue-IsBounded ev t s.queues r e)
]

-- Whoever is addressed, one queue gets the event.
pub targets-one :
    (to : Text) (sessions : Dict Session) (ts : List Text)
    → targets to sessions ≡ ok ts
    → (t : Text) × (ts ≡ t ∷ [])
unfolding targets keys
targets-one to [] ts h = elim (Bool-cases (text_eq to any_agent)) [
  | inl e ↦ (any_agent, ground arith)
  | inr e ↦ (to, ground arith)
]
targets-one to ((k, v) ∷ []) ts h = elim (Bool-cases (text_eq to any_agent)) [
  | inl e ↦ (k, ground arith)
  | inr e ↦ (to, ground arith)
]
targets-one to ((k, v) ∷ (j, w) ∷ m) ts h = elim (Bool-cases (text_eq to any_agent)) [
  | inl e ↦ absurd (ground arith)
  | inr e ↦ (to, ground arith)
]

put_one-IsBounded :
    (cfg : Config) (starts : Bool) (now : ℕ) (ev : Event) (t : Text) (s : State)
    → IsBounded s.queues
    → byte_len ev.body ≤ queued_bytes_max
    → IsBounded (put cfg starts now ev (t ∷ []) s).1.queues
unfolding put
put_one-IsBounded cfg starts now ev t s b fits =
    elim (Bool-cases (any (λ u. no_room u s.queues) (t ∷ []))) [
      | inl e ↦ rw e b
      | inr e ↦
          rw (e, queues-finish cfg.wake starts now ev.to _)
            (push_one-IsBounded ev t _ (
              unfold roomy in
              rw one (
                make_room-Room (suc (events s.queues)) (byte_len ev.body) s.queues fits
                  (omega arith) b.unique b.few b.short)))
    ]
  where
    one : byte_len ev.body * 1 ≡ byte_len ev.body
    one = omega arith

-- Delivering an event whose text fits into the total, to any address and whatever comes of it, keeps
-- the waiting queues within their bounds: at most 256 queues, at most 1000 events in each, and at
-- most 64 MiB of text in all.
pub deliver-IsBounded :
    (cfg : Config) (starts : Bool) (now : ℕ) (ev : Event) (s : State)
    → IsBounded s.queues
    → byte_len ev.body ≤ queued_bytes_max
    → IsBounded (deliver cfg starts now ev s).1.queues
unfolding deliver
deliver-IsBounded cfg starts now ev s b fits = by_targets (targets ev.to s.sessions) refl
  where
    by_targets :
        (r : Result DeliverError (List Text))
        → targets ev.to s.sessions ≡ r
        → IsBounded (deliver cfg starts now ev s).1.queues
    by_targets (err x) e = rw (e, deliver) b
    by_targets (ok ts) e =
        let one = targets-one ev.to s.sessions ts e in
        rw (e, deliver) (rw one.1 (put_one-IsBounded cfg starts now ev one.0 s b fits))
