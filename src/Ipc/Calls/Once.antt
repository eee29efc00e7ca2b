-- ===== src/Ipc/Calls/Once.antt =====
-- ipc.rs: every call gets one answer at most, and only the one with its number.
use agora_protocol.Base.{
  ℕ, ◌<◌, ◌≡◌, refl, ap, Bool, true, false, not, inl, inr, List, [], ◌∷◌, map, none, some, mem,
  retain, All, All-imp, All-every, Bool-cases, arith, ◌==◌,
}
use agora_protocol.Ipc.Calls.{
  Client, Line, event, answer, start, call, receive, close, Next, calls, reads, ends, step, run,
}

-- No number stands twice in a list.
abbrev pub IsOnce : List ℕ → Type 0
IsOnce [] = Unit
IsOnce (r ∷ rs) = (mem r rs ≡ false) × IsOnce rs

not_mem-below : (n : ℕ) (rs : List ℕ) → All (λ r. r < n) rs → mem n rs ≡ false
unfolding mem
not_mem-below n [] h = refl
not_mem-below n (r ∷ rs) h = ground (arith, not_mem-below n rs h.1)

mem-retain_self : (r : ℕ) (rs : List ℕ) → mem r (retain (λ p. not (p == r)) rs) ≡ false
unfolding mem
mem-retain_self r [] = refl
mem-retain_self r (x ∷ rs) = ground (arith, mem-retain_self r rs)

mem-retain :
    (x r : ℕ) (rs : List ℕ) → mem x rs ≡ false → mem x (retain (λ p. not (p == r)) rs) ≡ false
unfolding mem
mem-retain x r [] h = refl
mem-retain x r (y ∷ rs) h = ground (arith, mem-retain x r rs)

IsOnce-retain : (r : ℕ) (rs : List ℕ) → IsOnce rs → IsOnce (retain (λ p. not (p == r)) rs)
IsOnce-retain r [] h = tt
IsOnce-retain r (x ∷ rs) h = elim (Bool-cases (not (x == r))) [
  | inl e ↦ rw e (mem-retain x r rs h.0, IsOnce-retain r rs h.1)
  | inr e ↦ rw e (IsOnce-retain r rs h.1)
]

All-retain {κ} : (P : ℕ → Type κ) (f : ℕ → Bool) (rs : List ℕ) → All P rs → All P (retain f rs)
All-retain P f [] h = tt
All-retain P f (x ∷ rs) h = elim (Bool-cases (f x)) [
  | inl e ↦ rw e (h.0, All-retain P f rs h.1)
  | inr e ↦ rw e (All-retain P f rs h.1)
]

same : (a r : ℕ) → (a == r) ≡ true → a ≡ r
same a r e = ground arith

-- A pending number is none that was answered.
apart-mem :
    (r : ℕ) (ps done : List ℕ)
    → mem r ps ≡ true
    → All (λ a. mem a ps ≡ false) done
    → mem r done ≡ false
unfolding mem
apart-mem r ps [] m h = refl
apart-mem r ps (a ∷ done) m h = elim (Bool-cases (a == r)) [
  | inl e ↦ absurd (ground (arith, e, m, h.0, ap (λ x. mem x ps) (same a r e)))
  | inr e ↦ rw e (apart-mem r ps done m h.1)
]

mem-known : (r n : ℕ) (rs : List ℕ) → mem r rs ≡ true → All (λ x. x < n) rs → r < n
unfolding mem
mem-known r n [] m h = absurd (cc (m))
mem-known r n (x ∷ rs) m h = elim (Bool-cases (x == r)) [
  | inl e ↦ ground (arith, e, h.0)
  | inr e ↦ mem-known r n rs (rw e at m) h.1
]

apart_next :
    (n : ℕ) (ps done : List ℕ)
    → All (λ r. r < n) done
    → All (λ a. mem a ps ≡ false) done
    → All (λ a. mem a (n ∷ ps) ≡ false) done
unfolding mem
apart_next n ps [] h k = tt
apart_next n ps (a ∷ done) h k = (ground (arith, h.0, k.0), apart_next n ps done h.1 k.1)

module _ {V : Type 0} where
  abbrev pub numbers : Client V → List ℕ
  numbers c = map (λ (a : ℕ × V). a.0) c.answers

  record IsSorted (c : Client V) : Type 0 where
    pub pending_known : All (λ r. r < c.rid) c.pending
    pub answered_known : All (λ r. r < c.rid) (numbers c)
    pub pending_once : IsOnce c.pending
    pub answered_once : IsOnce (numbers c)
    pub apart : All (λ a. mem a c.pending ≡ false) (numbers c)

  call-IsSorted : (c : Client V) → IsSorted c → IsSorted (call c).1
  unfolding call
  call-IsSorted c h = record {
    pending_known = (omega arith, All-imp _ _ c.pending (λ r l. omega (arith, l)) h.pending_known);
    answered_known = All-imp _ _ (numbers c) (λ r l. omega (arith, l)) h.answered_known;
    pending_once = (not_mem-below c.rid c.pending h.pending_known, h.pending_once);
    answered_once = h.answered_once;
    apart = apart_next c.rid c.pending (numbers c) h.answered_known h.apart;
  }

  receive-IsSorted : (l : Line V) (c : Client V) → IsSorted c → IsSorted (receive l c)
  unfolding receive
  receive-IsSorted (event v) c h = record {
    pending_known = h.pending_known;
    answered_known = h.answered_known;
    pending_once = h.pending_once;
    answered_once = h.answered_once;
    apart = h.apart;
  }
  receive-IsSorted (answer none v) c h = h
  receive-IsSorted (answer (some r) v) c h = elim (Bool-cases (mem r c.pending)) [
    | inr e ↦ rw (e, receive) h
    | inl e ↦
        rw (e, receive)
          (record {
            pending_known = All-retain _ _ c.pending h.pending_known;
            answered_known = (mem-known r c.rid c.pending e h.pending_known, h.answered_known);
            pending_once = IsOnce-retain r c.pending h.pending_once;
            answered_once = (apart-mem r c.pending (numbers c) e h.apart, h.answered_once);
            apart = (
              mem-retain_self r c.pending,
              All-imp _ _ (numbers c) (λ x m. mem-retain x r c.pending m) h.apart,
            );
          })
  ]

  close-IsSorted : (c : Client V) → IsSorted c → IsSorted (close c)
  unfolding close mem
  close-IsSorted c h = record {
    pending_known = tt;
    answered_known = h.answered_known;
    pending_once = tt;
    answered_once = h.answered_once;
    apart = All-every _ (numbers c) (λ x. refl);
  }

  step-IsSorted : (n : Next V) (c : Client V) → IsSorted c → IsSorted (step n c)
  unfolding step
  step-IsSorted calls c h = call-IsSorted c h
  step-IsSorted (reads l) c h = receive-IsSorted l c h
  step-IsSorted ends c h = close-IsSorted c h

  run-IsSorted : (ns : List (Next V)) (c : Client V) → IsSorted c → IsSorted (run ns c)
  unfolding run
  run-IsSorted [] c h = h
  run-IsSorted (n ∷ ns) c h = run-IsSorted ns (step n c) (step-IsSorted n c h)

  -- Whatever calls a process makes, and whatever the node or an impostor writes in between: the number
  -- of every answer that was handed to a call is one that went out, no number is handed an answer twice,
  -- and a call that has its answer does not wait for one.
  pub run-IsOnce :
      (ns : List (Next V)) (listens : Bool)
      → let c = run ns (start listens) in
        All (λ r. r < c.rid) (numbers c)
        × IsOnce (numbers c)
        × All (λ r. mem r c.pending ≡ false) (numbers c)
  unfolding start
  run-IsOnce ns listens =
      let s = run-IsSorted ns (start listens) (record {
        pending_known = tt;
        answered_known = tt;
        pending_once = tt;
        answered_once = tt;
        apart = tt;
      }) in
      (s.answered_known, s.answered_once, s.apart)
