-- ===== src/Node/Admit/Rate.antt =====
-- node.rs: how many messages `admit` lets through in a time.
use agora_protocol.Base.{
  ℕ, ◌+◌, ◌-◌, ◌*◌, ◌≤◌, ◌≡◌, refl, Bool, true, false, List, [], ◌∷◌, ltb, arith, Bool-cases, inl,
  inr,
}
use agora_protocol.Node.Admit.{Bucket, message_cost, refill, take_token}

-- Attempts at the given distances from one another: how many are let through, and the bucket.
abbrev one_if : Bool → ℕ
one_if true = 1
one_if false = 0

unfoldable pub attempts : ℕ → ℕ → Bucket → List ℕ → ℕ × Bucket
attempts rate at b [] = (0, b)
attempts rate at b (gap ∷ gaps) =
    let (allowed, b') = take_token rate (at + gap) b in
    let (n, last) = attempts rate (at + gap) b' gaps in (one_if allowed + n, last)

abbrev pub total : List ℕ → ℕ
total [] = 0
total (g ∷ gs) = g + total gs

refill_bounds :
    (rate at gap : ℕ) (b : Bucket) → b.1 ≡ at → refill rate (at + gap) b ≤ b.0 + gap * rate
unfolding refill
refill_bounds rate at gap b h =
    let passed : (at + gap) - b.1 ≡ gap = omega arith in rw passed (omega arith)

-- One attempt.
take_token_bounds :
    (rate at gap : ℕ) (b : Bucket)
    → b.1 ≡ at
    → ((take_token rate (at + gap) b).1.1 ≡ at + gap)
      × (one_if (take_token rate (at + gap) b).0 * message_cost + (take_token rate (at + gap) b).1.0
          ≤ b.0 + gap * rate)
unfolding take_token
take_token_bounds rate at gap b h =
    let r = refill_bounds rate at gap b h in
    elim (Bool-cases (ltb (refill rate (at + gap) b) message_cost)) [
      | inl e ↦ rw e (refl, omega (arith, r))
      | inr e ↦ rw e (refl, ground (arith, r))
    ]

-- However a peer spreads its messages, the number that is let through in a time is at most what its
-- bucket held at first and what the rate adds in that time: no more than
-- `(level + nanoseconds · rate) / 60000000000`, and a full bucket holds `rate` messages.
pub attempts_bound :
    (rate at : ℕ) (b : Bucket) (gaps : List ℕ)
    → b.1 ≡ at
    → (attempts rate at b gaps).0 * message_cost ≤ b.0 + total gaps * rate
unfolding attempts
attempts_bound rate at b [] h = omega arith
attempts_bound rate at b (gap ∷ gaps) h =
    let t = take_token_bounds rate at gap b h in
    let later = attempts_bound rate (at + gap) (take_token rate (at + gap) b).1 gaps t.0 in
    omega (arith, t.1, later)
