-- ===== src/Relay/Server/Slots.antt =====
-- relay.rs: how many tunnels and pending calls there are, whatever tasks and machines do.
use agora_protocol.Base.{
  ℕ, zero, suc, ◌+◌, ◌-◌, ◌≤◌, ◌<◌, ◌≡◌, refl, ap, ◌∙◌, Bool, true, false, inl, inr, ◌&&◌, none,
  some, Option-cases, Bool-cases, Text, Bytes, text_eq, length, leb, arith, ◌==◌, if◌then◌else◌,
  text_eq_sound,
}
use agora_protocol.Base.Dict.{Dict, lookup, insert, lookup-insert}
use agora_protocol.Relay.Server.{
  tunnels_per_member, pending_max, Relay, count_of, call, reserve, free_slot, enqueue, forget,
  Phase, fresh, asking, reserved, refusing, finished, found, queued, waiting, joined, Task, Move,
  begin, reserve_slot, refuse_full, look_up, refuse_offline, store, refuse_busy, announce, answered,
  unanswered, release, close, set_task,
}

-- The phases in which a task counts as a tunnel of its member.
abbrev pub holds : Phase → Bool
holds fresh = false
holds asking = false
holds finished = false
holds reserved = true
holds refusing = true
holds (found id) = true
holds (queued id token) = true
holds (waiting token) = true
holds (joined who) = true

abbrev pub slot : Bool → ℕ
slot true = 1
slot false = 0

abbrev pub weight : Bytes → Task → ℕ
weight k t = slot (holds t.phase && text_eq t.key k)

-- The tasks below `n` that count for the member with the key.
unfoldable pub open_tunnels : Bytes → ℕ → (ℕ → Task) → ℕ
open_tunnels k zero f = 0
open_tunnels k (suc n) f = weight k (f n) + open_tunnels k n f

open_tunnels-outside :
    (k : Bytes) (n i : ℕ) (t : Task) (f : ℕ → Task)
    → n ≤ i
    → open_tunnels k n (set_task i t f) ≡ open_tunnels k n f
unfolding open_tunnels
open_tunnels-outside k zero i t f h = refl
open_tunnels-outside k (suc n) i t f h =
    let e : (i == n) ≡ false = ground arith in
    rw e (omega (arith, open_tunnels-outside k n i t f (omega arith)))

-- One task changes the number by the difference of what it counts.
pub open_tunnels-set_task :
    (k : Bytes) (n i : ℕ) (t : Task) (f : ℕ → Task)
    → i < n
    → open_tunnels k n (set_task i t f) + weight k (f i) ≡ open_tunnels k n f + weight k t
unfolding open_tunnels
open_tunnels-set_task k zero i t f h = absurd (omega arith)
open_tunnels-set_task k (suc n) i t f h = elim (Bool-cases (i == n)) [
  | inl e ↦
      let same : i ≡ n = ground (arith, e) in
      rw (e, same) (omega (arith, open_tunnels-outside k n n t f (omega arith)))
  | inr e ↦ rw e (omega (arith, open_tunnels-set_task k n i t f (ground (arith, e))))
]

pub weight-le-open_tunnels :
    (k : Bytes) (n i : ℕ) (f : ℕ → Task) → i < n → weight k (f i) ≤ open_tunnels k n f
unfolding open_tunnels
weight-le-open_tunnels k zero i f h = absurd (omega arith)
weight-le-open_tunnels k (suc n) i f h = elim (Bool-cases (i == n)) [
  | inl e ↦ let same : i ≡ n = ground (arith, e) in rw same (omega arith)
  | inr e ↦ omega (arith, weight-le-open_tunnels k n i f (ground (arith, e)))
]

count_of-insert :
    (k j : Bytes) (c : ℕ) (m : Dict ℕ)
    → count_of k (insert j c m) ≡ (if text_eq j k then c else count_of k m)
unfolding count_of
count_of-insert k j c m = ground (arith, lookup-insert j k c m)

same_count : (key k : Bytes) (m : Dict ℕ) → text_eq key k ≡ true → count_of key m ≡ count_of k m
same_count key k m h = ap (λ j. count_of j m) (text_eq_sound key k h)

count_of-lookup : (key : Bytes) (c : ℕ) (m : Dict ℕ) → lookup key m ≡ some c → count_of key m ≡ c
unfolding count_of
count_of-lookup key c m h = rw (count_of, h) refl

count_of-absent : (key : Bytes) (m : Dict ℕ) → lookup key m ≡ none → count_of key m ≡ 0
unfolding count_of
count_of-absent key m h = rw (count_of, h) refl

count_of-free_slot :
    (k key : Bytes) (s : Relay)
    → count_of k (free_slot key s).tunnels ≡ count_of k s.tunnels - slot (text_eq key k)
unfolding free_slot count_of lookup text_eq
count_of-free_slot k key s = elim (Option-cases (lookup key s.tunnels)) [
  | inl e ↦
      rw (free_slot, e)
        (elim (Bool-cases (text_eq key k)) [
          | inl b ↦
              rw b (omega (arith, same_count key k s.tunnels b, count_of-absent key s.tunnels e))
          | inr b ↦ rw b (omega arith)
        ])
  | inr (c, e) ↦
      rw (free_slot, e)
        (count_of-insert k key (c - 1) s.tunnels ∙ elim (Bool-cases (text_eq key k)) [
          | inl b ↦
              rw b (omega (arith, same_count key k s.tunnels b, count_of-lookup key c s.tunnels e))
          | inr b ↦ rw b (omega arith)
        ])
]

count_of-reserve :
    (k key : Bytes) (s : Relay)
    → (reserve key s).0 ≡ false
    → (count_of k (reserve key s).1.tunnels ≡ count_of k s.tunnels + slot (text_eq key k))
      × (count_of key s.tunnels < tunnels_per_member)
unfolding reserve
count_of-reserve k key s h = elim (Bool-cases (leb tunnels_per_member (count_of key s.tunnels))) [
  | inl e ↦ absurd (cc (rw e at h))
  | inr e ↦ rw e (
    count_of-insert k key (count_of key s.tunnels + 1) s.tunnels
        ∙ elim (Bool-cases (text_eq key k)) [
          | inl b ↦ rw b (omega (arith, same_count key k s.tunnels b))
          | inr b ↦ rw b (omega arith)
        ],
    ground (arith, e),
  )
]

count_of-refused :
    (k key : Bytes) (s : Relay)
    → (reserve key s).0 ≡ true
    → count_of k (reserve key s).1.tunnels ≡ count_of k s.tunnels
unfolding reserve
count_of-refused k key s h = elim (Bool-cases (leb tunnels_per_member (count_of key s.tunnels))) [
  | inl e ↦ rw e (
      count_of-insert k key (count_of key s.tunnels) s.tunnels ∙ elim (Bool-cases (text_eq key k)) [
        | inl b ↦ rw b (omega (arith, same_count key k s.tunnels b))
        | inr b ↦ rw b refl
      ])
  | inr e ↦ absurd (cc (rw e at h))
]

-- What a move does with the counter of a member.
pub record Counts (k : Bytes) (s s' : Relay) (t t' : Task) : Type 0 where
  pub change : count_of k s'.tunnels + weight k t ≡ count_of k s.tunnels + weight k t'
  pub limit : count_of k s'.tunnels ≤ tunnels_per_member

pub tunnels-enqueue :
    (token : Text) (to : Bytes) (me : ℕ) (s : Relay) → (enqueue token to me s).1.tunnels ≡ s.tunnels
unfolding enqueue
tunnels-enqueue token to me s = elim (Bool-cases (leb pending_max (length s.pending))) [
  | inl e ↦ rw e refl
  | inr e ↦ rw e refl
]

pub tunnels-call :
    (to : Bytes) (id : ℕ) (c : Text × Bytes) (s : Relay) → (call to id c s).tunnels ≡ s.tunnels
unfolding call
tunnels-call to id c s = elim (Option-cases (lookup to s.listening)) [
  | inl e ↦ rw (call, e) refl
  | inr (l, e) ↦
      rw (call, e) (elim (Bool-cases (l.0 == id)) [ inl b ↦ rw b refl | inr b ↦ rw b refl ])
]

-- A phase that counts and one that does not.
held :
    (k : Bytes) (t : Task) (p : Phase)
    → t.phase ≡ p
    → weight k t ≡ slot (holds p && text_eq t.key k)
held k t p e = ap (λ q. slot (holds q && text_eq t.key k)) e

pub Move-Counts :
    (k : Bytes) (me : ℕ) {s : Relay} {t : Task} {s' : Relay} {t' : Task}
    → Move me s t s' t'
    → count_of k s.tunnels ≤ tunnels_per_member
    → weight k t ≤ count_of k s.tunnels
    → Counts k s s' t t'
unfolding forget
Move-Counts k me {s} {t} (begin key to e) l w = record {
  change = omega (arith, held k t fresh e);
  limit = l;
}
Move-Counts k me {s} {t} (reserve_slot e f) l w =
    let c = count_of-reserve k t.key s f in
    record {
      change = omega (arith, held k t asking e, c.0);
      limit = within (text_eq t.key k) refl c.0 c.1;
    }
  where
    within :
        (b : Bool)
        → text_eq t.key k ≡ b
        → count_of k (reserve t.key s).1.tunnels ≡ count_of k s.tunnels + slot (text_eq t.key k)
        → count_of t.key s.tunnels < tunnels_per_member
        → count_of k (reserve t.key s).1.tunnels ≤ tunnels_per_member
    within true b c d = omega (arith, c, d, same_count t.key k s.tunnels b, ap slot b)
    within false b c d = omega (arith, c, l, ap slot b)
Move-Counts k me {s} {t} (refuse_full e f) l w =
    let c = count_of-refused k t.key s f in
    record { change = omega (arith, held k t asking e, c); limit = omega (arith, c) }
Move-Counts k me {s} {t} (look_up id calls e f) l w = record {
  change = omega (arith, held k t reserved e);
  limit = l;
}
Move-Counts k me {s} {t} (refuse_offline e f) l w = record {
  change = omega (arith, held k t reserved e);
  limit = l;
}
Move-Counts k me {s} {t} (store id token e f) l w =
    let c = ap (count_of k) (tunnels-enqueue token t.to me s) in
    record { change = omega (arith, held k t (found id) e, c); limit = omega (arith, c) }
Move-Counts k me {s} {t} (refuse_busy id token e f) l w = record {
  change = omega (arith, held k t (found id) e);
  limit = l;
}
Move-Counts k me {s} {t} (announce id token e) l w =
    let c = ap (count_of k) (tunnels-call t.to id (token, t.key) s) in
    record { change = omega (arith, held k t (queued id token) e, c); limit = omega (arith, c) }
Move-Counts k me {s} {t} (answered token who e m) l w = record {
  change = omega (arith, held k t (waiting token) e);
  limit = l;
}
Move-Counts k me {s} {t} (unanswered token e) l w = record {
  change = omega (arith, held k t (waiting token) e);
  limit = l;
}
Move-Counts k me {s} {t} (release e) l w =
    let c = count_of-free_slot k t.key s in
    record { change = omega (arith, held k t refusing e, c); limit = omega (arith, c) }
Move-Counts k me {s} {t} (close who e) l w =
    let c = count_of-free_slot k t.key s in
    record { change = omega (arith, held k t (joined who) e, c); limit = omega (arith, c) }
