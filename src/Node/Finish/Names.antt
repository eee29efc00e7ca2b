-- ===== src/Node/Finish/Names.antt =====
-- node.rs: the name under which a received file is stored is free.
use mathlib.Core.List.{append-nil}
use agora_protocol.Base.{
  ℕ, zero, suc, ◌+◌, ◌≤◌, ◌<◌, ◌≡◌, ◌≢◌, refl, sym, ap, ◌∙◌, false, inl, inr, [], ◌∷◌, ◌++◌, Option,
  none, some, Option-cases, Bool-cases, Text, Bytes, codes, decimal, rsplit_once, text_eq,
  text_eq_sound, take, take-append, drop, drop-append, length, length-append, arith, eq_of_some,
  ◌==◌,
}
use agora_protocol.Base.Dict.{Dict, remove, contains_key, contains_key-remove, length-remove_lt}
use agora_protocol.Base.Decimal.{decimal_injective}
use agora_protocol.Node.Finish.{stem_and_ext, candidate, find_name, reserved_name}

rsplit_once-joins :
    (c : ℕ) (s : Text) (r : Text × Text) → rsplit_once c s ≡ some r → s ≡ r.0 ++ c ∷ r.1
unfolding rsplit_once
rsplit_once-joins c [] r h = absurd (cc)
rsplit_once-joins c (x ∷ s) r h = elim (Option-cases (rsplit_once c s)) [
  | inr (q, e) ↦
      let same = eq_of_some _ r (rw e at h) in
      ap (λ t. x ∷ t) (rsplit_once-joins c s q e) ∙ ap (λ (p : Text × Text). p.0 ++ c ∷ p.1) same
  | inl e ↦ elim (Bool-cases (x == c)) [
    | inl b ↦
        let same = eq_of_some _ r (rw b at (rw e at h)) in
        let here : x ≡ c = ground (arith, b) in
        ap (λ y. y ∷ s) here ∙ ap (λ (p : Text × Text). p.0 ++ c ∷ p.1) same
    | inr b ↦ absurd (cc (rw b at (rw e at h)))
  ]
]

stem_and_ext-joins :
    (name : Text) (o : Option (Text × Text))
    → rsplit_once b'.' name ≡ o
    → name ≡ (stem_and_ext name o).0 ++ (stem_and_ext name o).1
unfolding stem_and_ext
stem_and_ext-joins name none e = sym (append-nil name)
stem_and_ext-joins name (some r) e = rsplit_once-joins b'.' name r e

cancel_left : (a b c : Text) → a ++ b ≡ a ++ c → b ≡ c
cancel_left a b c e = sym (drop-append a b) ∙ ap (drop (length a)) e ∙ drop-append a c

cancel_right : (a b c : Text) → a ++ c ≡ b ++ c → a ≡ b
cancel_right a b c e =
    let same : length a ≡ length b =
      omega (arith, ap length e, length-append a c, length-append b c) in
    sym (take-append a c)
    ∙ ap (take (length a)) e
    ∙ ap (λ n. take n (b ++ c)) same
    ∙ take-append b c

-- No two of the names that are tried are the same.
candidate-ne : (name : Text) (i j : ℕ) → 1 ≤ i → i < j → candidate name i ≢ candidate name j
unfolding candidate
candidate-ne name i j one h e =
    let parts = stem_and_ext name (rsplit_once b'.' name) in
    let later : (j == 1) ≡ false = ground arith in
    elim (Bool-cases (i == 1)) [
      | inl b ↦
          let f : name ≡ parts.0 ++ (codes "-" ++ (decimal j ++ parts.1)) =
            rw later at (rw b at e) in
          absurd (
            omega (
              arith,
              ap length f,
              ap length (stem_and_ext-joins name (rsplit_once b'.' name) refl),
              length-append parts.0 parts.1,
              length-append parts.0 (codes "-" ++ (decimal j ++ parts.1)),
              length-append (decimal j) parts.1,
            ))
      | inr b ↦
          let f : parts.0 ++ (codes "-" ++ (decimal i ++ parts.1))
              ≡ parts.0 ++ (codes "-" ++ (decimal j ++ parts.1)) =
            rw later at (rw b at e) in
          let g = cancel_left (codes "-") _ _ (cancel_left parts.0 _ _ f) in
          omega (arith, h, decimal_injective i j (cancel_right (decimal i) (decimal j) parts.1 g))
    ]

candidate-other :
    (name : Text) (i j : ℕ) → 1 ≤ i → i < j → text_eq (candidate name i) (candidate name j) ≡ false
candidate-other name i j one h = elim (Bool-cases (text_eq (candidate name i) (candidate name j))) [
  | inl e ↦ absurd (candidate-ne name i j one h (text_eq_sound _ _ e))
  | inr e ↦ e
]

-- As long as the names are taken, the folder without them is smaller.
find_name-free :
    (fuel : ℕ) (name : Text) (i : ℕ) (d rest : Dict Bytes)
    → 1 ≤ i
    → length rest < fuel
    → ((j : ℕ) → i ≤ j → contains_key (candidate name j) rest ≡ contains_key (candidate name j) d)
    → contains_key (find_name fuel name i d) d ≡ false
unfolding find_name
find_name-free zero name i d rest one l same = absurd (omega (arith, l))
find_name-free (suc fuel) name i d rest one l same =
    elim (Bool-cases (contains_key (candidate name i) d)) [
      | inr e ↦ rw e e
      | inl e ↦ rw e (
          find_name-free fuel name (i + 1) d (remove (candidate name i) rest) (omega (arith, one))
            (omega (arith, l, length-remove_lt (candidate name i) rest (same i (omega arith) ∙ e)))
            (λ j h.
              contains_key-remove (candidate name i) (candidate name j) rest
              ∙ rw (candidate-other name i j one (omega (arith, h))) (same j (omega (arith, h)))))
    ]

-- The search ends with a name that no file in the folder has.
pub reserved_name-free :
    (name : Text) (d : Dict Bytes) → contains_key (reserved_name name d) d ≡ false
unfolding reserved_name
reserved_name-free name d =
    find_name-free (suc (length d)) name 1 d d (omega arith) (omega arith) (λ j h. refl)
