-- ===== src/Relay/Server/Waiting.antt =====
-- relay.rs: which calls wait after a step.
use agora_protocol.Base.{
  ℕ, ◌≡◌, ◌⊎◌, refl, sym, ◌∙◌, Bool, true, false, inl, inr, some, Option-cases, Bool-cases, Text,
  Bytes, text_eq, length, leb, arith, eq_of_some, ◌==◌,
}
use agora_protocol.Base.Dict.{lookup, lookup-insert, lookup-remove}
use agora_protocol.Relay.Server.{
  tunnels_per_member, pending_max, Pending, Relay, count_of, call, reserve, free_slot, enqueue,
  forget, is_called, take_call, Phase, fresh, Task, Move, begin, reserve_slot, refuse_full, look_up,
  refuse_offline, store, refuse_busy, announce, answered, unanswered, release, close,
}

abbrev pub is_fresh : Phase → Bool
is_fresh fresh = true
is_fresh _ = false

-- What is waiting after a step waited before it, or is the call that the step stored.
abbrev pub Waits : Relay → Relay → Pending → Type 0
Waits s s' p = (token : Text) → lookup token s'.pending ≡ some p → lookup token s.pending ≡ some p

Waits-forget : (token : Text) (s : Relay) (p : Pending) → Waits s (forget token s) p
unfolding forget
Waits-forget token s p j h = ground (arith, lookup-remove token j s.pending)

Waits-free_slot : (key : Bytes) (s : Relay) (p : Pending) → Waits s (free_slot key s) p
unfolding free_slot
Waits-free_slot key s p = elim (Option-cases (lookup key s.tunnels)) [
  | inl e ↦ rw (free_slot, e) (λ j h. h)
  | inr (c, e) ↦ rw (free_slot, e) (λ j h. h)
]

Waits-reserve : (key : Bytes) (s : Relay) (p : Pending) → Waits s (reserve key s).1 p
unfolding reserve
Waits-reserve key s p = elim (Bool-cases (leb tunnels_per_member (count_of key s.tunnels))) [
  | inl e ↦ rw e (λ j h. h)
  | inr e ↦ rw e (λ j h. h)
]

Waits-call :
    (to : Bytes) (id : ℕ) (c : Text × Bytes) (s : Relay) (p : Pending) → Waits s (call to id c s) p
unfolding call
Waits-call to id c s p = elim (Option-cases (lookup to s.listening)) [
  | inl e ↦ rw (call, e) (λ j h. h)
  | inr (l, e) ↦
      rw (call, e)
        (elim (Bool-cases (l.0 == id)) [ inl b ↦ rw b (λ j h. h) | inr b ↦ rw b (λ j h. h) ])
]

lookup-enqueue :
    (token j : Text) (to : Bytes) (me : ℕ) (s : Relay) (p : Pending)
    → lookup j (enqueue token to me s).1.pending ≡ some p
    → (lookup j s.pending ≡ some p) ⊎ (p ≡ record { to = to; task = me })
unfolding enqueue
lookup-enqueue token j to me s p h = elim (Bool-cases (leb pending_max (length s.pending))) [
  | inl e ↦ inl (rw e at h)
  | inr e ↦ elim (Bool-cases (text_eq token j)) [
    | inl b ↦ inr (
        sym (
          eq_of_some _ _ (
            rw b at (
              sym (lookup-insert token j (record { to = to; task = me }) s.pending)
              ∙ (rw e at h)))))
    | inr b ↦ inl (
        rw b at
          (sym (lookup-insert token j (record { to = to; task = me }) s.pending) ∙ (rw e at h)))
  ]
]

pub Move-pending :
    (me : ℕ) {s : Relay} {t : Task} {s' : Relay} {t' : Task}
    → Move me s t s' t'
    → (j : Text) (p : Pending) → lookup j s'.pending ≡ some p
    → (lookup j s.pending ≡ some p)
      ⊎ ((p ≡ record { to = t'.to; task = me }) × (is_fresh t'.phase ≡ false))
Move-pending me (begin key to e) j p h = inl h
Move-pending me {s} {t} (reserve_slot e f) j p h = inl (Waits-reserve t.key s p j h)
Move-pending me {s} {t} (refuse_full e f) j p h = inl (Waits-reserve t.key s p j h)
Move-pending me (look_up id calls e f) j p h = inl h
Move-pending me (refuse_offline e f) j p h = inl h
Move-pending me {s} {t} (store id token e f) j p h = elim (lookup-enqueue token j t.to me s p h) [
  | inl g ↦ inl g
  | inr g ↦ inr (g, refl)
]
Move-pending me (refuse_busy id token e f) j p h = inl h
Move-pending me {s} {t} (announce id token e) j p h =
    inl (Waits-call t.to id (token, t.key) s p j h)
Move-pending me {s} (answered token who e m) j p h = inl (Waits-forget token s p j h)
Move-pending me {s} (unanswered token e) j p h = inl (Waits-forget token s p j h)
Move-pending me {s} {t} (release e) j p h = inl (Waits-free_slot t.key s p j h)
Move-pending me {s} {t} (close who e) j p h = inl (Waits-free_slot t.key s p j h)

pub Waits-take_call :
    (key : Bytes) (token : Text) (s : Relay) (p : Pending) → Waits s (take_call key token s).1 p
unfolding take_call
Waits-take_call key token s p = elim (Option-cases (is_called key (lookup token s.pending))) [
  | inl e ↦ rw (take_call, e) (λ j h. h)
  | inr (q, e) ↦ rw (take_call, e) (Waits-forget token s p)
]
