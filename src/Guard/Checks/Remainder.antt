-- ===== src/Guard/Checks/Remainder.antt =====
-- guard.rs: `iban` computes the remainder by 97 of the number that the account number stands for.
use agora_protocol.Base.{
  ℕ, ◌+◌, ◌*◌, ◌%◌, ◌≡◌, ◌⊎◌, refl, ap, Bool, true, false, not, ◌&&◌, ◌==◌, ltb, inl, inr, [], ◌∷◌,
  Option, none, some, Option-cases, Text, Bool-cases, leb, between, byte_len, utf8_width, ◌<◌, ◌++◌,
  arith, if◌then◌else◌,
}
use agora_protocol.Guard.Checks.{
  check_iban, split_bytes, with_first, rearranged, masked_if, is_one, panics, to_digit36, iban_rem,
}

-- The number that is written with the digits, where a letter stands for two of them.
unfoldable pub account_number : ℕ → Text → Option ℕ
account_number n [] = some n
account_number n (ch ∷ s) = elim (to_digit36 ch) [
  | none ↦ none
  | some v ↦ account_number (if leb 10 v then n * 100 + v else n * 10 + v) s
]

abbrev pub rem_of : Option ℕ → Option ℕ
rem_of none = none
rem_of (some n) = some (n % 97)

letter_step : (n v : ℕ) → (n % 97 * 100 + v) % 97 ≡ (n * 100 + v) % 97
letter_step n v = omega arith

digit_step : (n v : ℕ) → (n % 97 * 10 + v) % 97 ≡ (n * 10 + v) % 97
digit_step n v = omega arith

iban_rem-from : (n : ℕ) (s : Text) → iban_rem (n % 97) s ≡ rem_of (account_number n s)
unfolding iban_rem account_number
iban_rem-from n [] = refl
iban_rem-from n (ch ∷ s) = elim (Option-cases (to_digit36 ch)) [
  | inl e ↦ rw (iban_rem, account_number, e) refl
  | inr (v, e) ↦
      rw (iban_rem, account_number, e)
        (elim (Bool-cases (leb 10 v)) [
          | inl b ↦ rw b (rw (letter_step n v) (iban_rem-from (n * 100 + v) s))
          | inr b ↦ rw b (rw (digit_step n v) (iban_rem-from (n * 10 + v) s))
        ])
]

-- An account number of 15 to 34 bytes whose fourth byte ends a character is masked exactly if the
-- number that it stands for, its first four bytes moved to its end, has the remainder 1 by 97. A
-- character that is no digit or letter of ASCII makes it no account number.
pub check_iban-remainder :
    (s k a b : Text)
    → between 15 34 (byte_len s) ≡ true
    → split_bytes 4 s ≡ some (a, b)
    → check_iban s k ≡ masked_if (is_one (rem_of (account_number 0 (b ++ a)))) k
unfolding check_iban
check_iban-remainder s k a b h e =
    rw (check_iban, h)
      (rw (check_iban, e) (ap (λ o. masked_if (is_one o) k) (iban_rem-from 0 (b ++ a))))

narrow : (x : ℕ) → x < 128 → utf8_width x ≡ 1
unfolding utf8_width
narrow x h = ground arith

abbrev HasWidth : ℕ → ℕ → Type 0
HasWidth x n = utf8_width x ≡ n

width_cases : (x : ℕ) → HasWidth x 1 ⊎ HasWidth x 2 ⊎ HasWidth x 3 ⊎ HasWidth x 4
unfolding utf8_width
width_cases x = elim (Bool-cases (ltb x 0x80)) [
  | inl a ↦ inl (rw a refl)
  | inr a ↦ elim (Bool-cases (ltb x 0x800)) [
    | inl b ↦ inr (inl (rw (a, b) refl))
    | inr b ↦ elim (Bool-cases (ltb x 0x10000)) [
      | inl c ↦ inr (inr (inl (rw (a, b, c) refl)))
      | inr c ↦ inr (inr (inr (rw (a, b, c) refl)))
    ]
  ]
]

-- Behind two characters of one byte, the fourth byte ends no character of these widths.
abbrev pub is_cut : ℕ → ℕ → Bool
is_cut v w = not (v == 2) && not (v == 1 && w == 1)

-- Whether a split is the panic, as a test says.
abbrev Panics : Bool → Option (Text × Text) → Type 0
Panics b none = b ≡ true
Panics b (some p) = b ≡ false

Panics-with_first :
    (b : Bool) (c : ℕ) (o : Option (Text × Text)) → Panics b o → Panics b (with_first c o)
unfolding with_first
Panics-with_first b c none h = h
Panics-with_first b c (some p) h = h

at_start : (s : Text) → Panics false (split_bytes 0 s)
unfolding split_bytes
at_start [] = refl
at_start (c ∷ s) = refl

split-one : (d : ℕ) (s : Text) → Panics (is_cut 1 (utf8_width d)) (split_bytes 1 (d ∷ s))
unfolding split_bytes
split-one d s = elim (width_cases d) [
  | inl h ↦ rw h (Panics-with_first false d (split_bytes 0 s) (at_start s))
  | inr (inl h) ↦ rw h refl
  | inr (inr (inl h)) ↦ rw h refl
  | inr (inr (inr h)) ↦ rw h refl
]

split-two :
    (c d : ℕ) (s : Text) → Panics (is_cut (utf8_width c) (utf8_width d)) (split_bytes 2 (c ∷ d ∷ s))
unfolding split_bytes
split-two c d s = elim (width_cases c) [
  | inl h ↦ rw h (Panics-with_first _ c _ (split-one d s))
  | inr (inl h) ↦ rw h (Panics-with_first false c (split_bytes 0 (d ∷ s)) (at_start (d ∷ s)))
  | inr (inr (inl h)) ↦ rw h refl
  | inr (inr (inr h)) ↦ rw h refl
]

split-four :
    (x y c d : ℕ) (s : Text)
    → utf8_width x ≡ 1
    → utf8_width y ≡ 1
    → Panics (is_cut (utf8_width c) (utf8_width d)) (split_bytes 4 (x ∷ y ∷ c ∷ d ∷ s))
unfolding split_bytes
split-four x y c d s hx hy =
    rw (split_bytes, hx)
      (rw (split_bytes, hy) (Panics-with_first _ x _ (Panics-with_first _ y _ (split-two c d s))))

masked_if-fine : (b : Bool) (k : Text) → ¬ (masked_if b k ≡ panics)
masked_if-fine true k h = absurd (cc (h))
masked_if-fine false k h = absurd (cc (h))

rearranged-panics :
    (b : Bool) (k : Text) (o : Option (Text × Text))
    → Panics b o
    → (b ≡ true → rearranged k o ≡ panics) × (b ≡ false → ¬ (rearranged k o ≡ panics))
unfolding rearranged
rearranged-panics b k none p = (λ h. refl, λ h. absurd (cc (h, p)))
rearranged-panics b k (some q) p = (λ h. absurd (cc (h, p)), λ h. masked_if-fine _ k)

-- For a text of 15 to 34 bytes that begins with two characters of ASCII, `check_iban` panics exactly if
-- the next two characters are such that the fourth byte of the text ends none of them: the first of
-- them has not two bytes, and the two have not one byte each.
pub check_iban-wide_digit :
    (x y c d : ℕ) (s k : Text)
    → x < 128
    → y < 128
    → between 15 34 (byte_len (x ∷ y ∷ c ∷ d ∷ s)) ≡ true
    → (is_cut (utf8_width c) (utf8_width d) ≡ true → check_iban (x ∷ y ∷ c ∷ d ∷ s) k ≡ panics)
      × (is_cut (utf8_width c) (utf8_width d) ≡ false
          → ¬ (check_iban (x ∷ y ∷ c ∷ d ∷ s) k ≡ panics))
unfolding check_iban
check_iban-wide_digit x y c d s k hx hy h =
    rw (check_iban, h)
      (rearranged-panics _ k (split_bytes 4 (x ∷ y ∷ c ∷ d ∷ s))
        (split-four x y c d s (narrow x hx) (narrow y hy)))
