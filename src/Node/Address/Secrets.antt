-- ===== src/Node/Address/Secrets.antt =====
-- node.rs: `ct_eq` compares secrets: it is equality of the bytes.
use agora_protocol.Base.{
  ℕ, zero, suc, ◌<◌, ◌≡◌, refl, ap, ◌∙◌, Bool, true, false, inl, inr, ◌&&◌, not, List, [], ◌∷◌,
  length, All, text_eq, text_eq_iff, Bool-cases, arith, ◌==◌, leb,
}
use Prim.Native.Nat.{bit_or, bit_xor}
use agora_protocol.Node.Address.{differences, ct_eq}

-- `p` holds of every number below `n`.
below : ℕ → (ℕ → Bool) → Bool
below zero p = true
below (suc n) p = below n p && p n

below-lt : (n : ℕ) (p : ℕ → Bool) (x : ℕ) → below n p ≡ true → x < n → p x ≡ true
unfolding below
below-lt zero p x h l = absurd (omega arith)
below-lt (suc n) p x h l = ground (arith, below-lt n p x)

same : Bool → Bool → Bool
same true b = b
same false b = not b

abbrev xor_test : ℕ → ℕ → Bool
xor_test x y = same (bit_xor x y == 0) (x == y) && not (leb 256 (bit_xor x y))

abbrev or_test : ℕ → ℕ → Bool
or_test x y = same (bit_or x y == 0) (x == 0 && y == 0) && not (leb 256 (bit_or x y))

xor_table : below 256 (λ x. below 256 (xor_test x)) ≡ true
unfolding below same
xor_table = refl

or_table : below 256 (λ x. below 256 (or_test x)) ≡ true
unfolding below same
or_table = refl

xor_test-holds : (x y : ℕ) → x < 256 → y < 256 → xor_test x y ≡ true
xor_test-holds x y hx hy =
    below-lt 256 (xor_test x) y (below-lt 256 (λ x. below 256 (xor_test x)) x xor_table hx) hy

or_test-holds : (x y : ℕ) → x < 256 → y < 256 → or_test x y ≡ true
or_test-holds x y hx hy =
    below-lt 256 (or_test x) y (below-lt 256 (λ x. below 256 (or_test x)) x or_table hx) hy

read_test : (a b c : Bool) → (same a b && not c) ≡ true → (a ≡ b) × (c ≡ false)
unfolding same
read_test true true false h = (refl, refl)
read_test false false false h = (refl, refl)
read_test true true true h = absurd (cc)
read_test false false true h = absurd (cc)
read_test true false c h = absurd (cc)
read_test false true c h = absurd (cc)

and_assoc : (a b c : Bool) → ((a && b) && c) ≡ (a && (b && c))
and_assoc true b c = refl
and_assoc false b c = refl

-- One turn of the fold.
turn :
    (acc x y : ℕ)
    → acc < 256
    → x < 256
    → y < 256
    → (bit_or acc (bit_xor x y) < 256) × ((bit_or acc (bit_xor x y) == 0) ≡ (acc == 0 && x == y))
turn acc x y ha hx hy =
    let e = read_test (bit_xor x y == 0) (x == y) _ (xor_test-holds x y hx hy) in
    let small : bit_xor x y < 256 = ground (arith, e.1) in
    let o =
      read_test (bit_or acc (bit_xor x y) == 0) (acc == 0 && bit_xor x y == 0) _
        (or_test-holds acc (bit_xor x y) ha small) in
    (ground (arith, o.1), o.0 ∙ ap (λ b. acc == 0 && b) e.0)

abbrev pub IsByte : ℕ → Type 0
IsByte b = b < 256

differences-zero :
    (acc : ℕ) (a b : List ℕ)
    → acc < 256
    → All IsByte a
    → All IsByte b
    → length a ≡ length b
    → (differences acc a b == 0) ≡ (acc == 0 && text_eq a b)
unfolding differences text_eq
differences-zero acc [] [] ha bs cs l = ground arith
differences-zero acc [] (y ∷ b) ha bs cs l = absurd (omega arith)
differences-zero acc (x ∷ a) [] ha bs cs l = absurd (omega arith)
differences-zero acc (x ∷ a) (y ∷ b) ha bs cs l =
    let t = turn acc x y ha bs.0 cs.0 in
    differences-zero (bit_or acc (bit_xor x y)) a b t.0 bs.1 cs.1 (omega arith)
    ∙ ap (λ c. c && text_eq a b) t.1
    ∙ and_assoc (acc == 0) (x == y) (text_eq a b)

length-text_eq : (a b : List ℕ) → text_eq a b ≡ true → length a ≡ length b
length-text_eq a b h = ap length ((text_eq_iff a b).0 h)

-- `ct_eq` looks at all bytes whatever they are, and finds out whether the two are equal.
pub ct_eq-text_eq : (a b : List ℕ) → All IsByte a → All IsByte b → ct_eq a b ≡ text_eq a b
unfolding ct_eq
ct_eq-text_eq a b ha hb = elim (Bool-cases (length a == length b)) [
  | inl e ↦ rw e (differences-zero 0 a b (omega arith) ha hb (ground (arith, e)))
  | inr e ↦ rw e (ground (arith, e, length-text_eq a b))
]
