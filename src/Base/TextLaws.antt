-- ===== src/Base/TextLaws.antt =====
-- Laws of the text methods: what trimming, splitting and cutting leave of a text.
use Prim.Native.Nat.{ℕ, ◌≤◌}
use mathlib.Core.Path.{◌≡◌, refl, sym, subst, ap, ◌∙◌}
use mathlib.Core.Logic.{inl, inr}
use mathlib.Core.Bool.{Bool, true, false, ◌||◌}
use mathlib.Core.List.{List, [], ◌∷◌, ◌++◌, reverse, reverse-append, reverse-reverse}
use mathlib.Core.Option.{none, some}
use native.Mathlib.Omega.{arith}
use agora_protocol.Base.Tests.{◌==◌, Bool-cases, Option-cases}
use agora_protocol.Base.Lists.{any, All, All-append, length, is_empty}
use agora_protocol.Base.Strings.{
  text_eq, text_eq_sound, mem_text, Text, starts_with, trim_start, trim_end, before, split,
  after_last, rsplit_once, push_head, trim, is_whitespace, strip_prefix, split_once,
}

pub starts_with-append : (p s : List ℕ) → starts_with p (p ++ s) ≡ true
unfolding starts_with
starts_with-append [] s = refl
starts_with-append (x ∷ p) s = ground (arith, starts_with-append p s)

-- A prefix is what `starts_with` finds.
pub starts_with_sound : (p s : List ℕ) → starts_with p s ≡ true → (r : List ℕ) × (s ≡ p ++ r)
unfolding starts_with
starts_with_sound [] s h = (s, refl)
starts_with_sound (x ∷ p) [] h = absurd (ground arith)
starts_with_sound (x ∷ p) (c ∷ s) h =
    let rest = starts_with_sound p s (ground arith) in (rest.0, ground (arith, rest.1))

module _ (p : ℕ → Bool) where
  -- What `trim_start` removes matches, and what it leaves does not begin with a match.
  pub trim_start_split : (s : Text) → (a : Text) × (s ≡ a ++ trim_start p s)
  unfolding trim_start
  trim_start_split [] = ([], refl)
  trim_start_split (c ∷ s) = elim (Bool-cases (p c)) [
    | inl e ↦ let r = trim_start_split s in (c ∷ r.0, rw e (ap (λ t. c ∷ t) r.1))
    | inr e ↦ ([], rw e refl)
  ]

  pub All-trim_start {κ} : (P : ℕ → Type κ) (s : Text) → All P s → All P (trim_start p s)
  unfolding trim_start
  All-trim_start P [] h = tt
  All-trim_start P (c ∷ s) h = elim (Bool-cases (p c)) [
    | inl e ↦ rw e (All-trim_start P s h.1)
    | inr e ↦ rw e h
  ]

  pub length-trim_start : (s : Text) → length (trim_start p s) ≤ length s
  unfolding trim_start
  length-trim_start [] = omega arith
  length-trim_start (c ∷ s) = ground (arith, length-trim_start s)

pub All-reverse {ℓ κ} : {A : Type ℓ} (P : A → Type κ) (s : List A) → All P s → All P (reverse s)
All-reverse P [] h = tt
All-reverse P (c ∷ s) h =
    rw (reverse-append (c ∷ []) s)
      (All-append P (reverse s) (c ∷ []) (All-reverse P s h.1) (h.0, tt))

module _ (p : ℕ → Bool) where
  pub All-trim_end {κ} : (P : ℕ → Type κ) (s : Text) → All P s → All P (trim_end p s)
  unfolding trim_end
  All-trim_end P s h = All-reverse P _ (All-trim_start p P _ (All-reverse P s h))

  -- `trim_end` leaves a prefix.
  pub trim_end_prefix : (s : Text) → (a : Text) × (s ≡ trim_end p s ++ a)
  unfolding trim_end
  trim_end_prefix s =
      let r = trim_start_split p (reverse s) in
      (reverse r.0, sym (reverse-reverse s) ∙ ap reverse r.1 ∙ reverse-append r.0 _)

  -- Nothing in `before` matches.
  pub before-All : (s : Text) → All (λ c. p c ≡ false) (before p s)
  unfolding before
  before-All [] = tt
  before-All (c ∷ s) = elim (Bool-cases (p c)) [ inl e ↦ rw e tt | inr e ↦ rw e (e, before-All s) ]

  pub All-before {κ} : (P : ℕ → Type κ) (s : Text) → All P s → All P (before p s)
  unfolding before
  All-before P [] h = tt
  All-before P (c ∷ s) h = elim (Bool-cases (p c)) [
    | inl e ↦ rw e tt
    | inr e ↦ rw e (h.0, All-before P s h.1)
  ]

  -- A text that has a match keeps its first part when more is appended.
  pub before-append : (s t : Text) → any p s ≡ true → before p (s ++ t) ≡ before p s
  unfolding before
  before-append [] t h = absurd (ground arith)
  before-append (c ∷ s) t h = elim (Bool-cases (p c)) [
    | inl e ↦ rw e refl
    | inr e ↦ rw e (ap (λ r. c ∷ r) (before-append s t (rw e at h)))
  ]

  pub after_last-All : (s : Text) → All (λ c. p c ≡ false) (after_last p s)
  unfolding after_last
  after_last-All s = All-reverse _ _ (before-All (reverse s))

  pub All-after_last {κ} : (P : ℕ → Type κ) (s : Text) → All P s → All P (after_last p s)
  unfolding after_last
  All-after_last P s h = All-reverse P _ (All-before P _ (All-reverse P s h))

pub rsplit_once-none : (c : ℕ) (e : Text) → All (λ d. (d == c) ≡ false) e → rsplit_once c e ≡ none
unfolding rsplit_once
rsplit_once-none c [] h = refl
rsplit_once-none c (x ∷ e) h = ground (arith, rsplit_once-none c e h.1)

-- The last separator is the one before a text that has none.
pub rsplit_once-append :
    (c : ℕ) (s e : Text) → All (λ d. (d == c) ≡ false) e → rsplit_once c (s ++ c ∷ e) ≡ some (s, e)
unfolding rsplit_once
rsplit_once-append c [] e h = ground (arith, rsplit_once-none c e h)
rsplit_once-append c (x ∷ s) e h = rw (rsplit_once-append c s e h) refl

pub rsplit_once-any :
    (c : ℕ) (s : Text) (r : Text × Text) → rsplit_once c s ≡ some r → any (λ d. d == c) s ≡ true
unfolding rsplit_once
rsplit_once-any c [] r h = absurd (ground arith)
rsplit_once-any c (x ∷ s) r h = elim (Bool-cases (x == c)) [
  | inl e ↦ rw e refl
  | inr e ↦ elim (Option-cases (rsplit_once c s)) [
    | inl n ↦ absurd (ground arith)
    | inr q ↦ ground (arith, rsplit_once-any c s q.0 q.1)
  ]
]

-- `split` gives at least one piece.
split-cons : (p : ℕ → Bool) (s : Text) → is_empty (split p s) ≡ false
unfolding split push_head
split-cons p [] = refl
split-cons p (c ∷ s) = ground arith

push_head-append :
    (c : ℕ) (xs ys : List Text)
    → is_empty xs ≡ false
    → push_head c (xs ++ ys) ≡ push_head c xs ++ ys
unfolding push_head
push_head-append c [] ys h = absurd (ground arith)
push_head-append c (x ∷ xs) ys h = refl

pub split-append :
    (p : ℕ → Bool) (a : Text) (c : ℕ) (b : Text)
    → p c ≡ true
    → split p (a ++ c ∷ b) ≡ split p a ++ split p b
unfolding split
split-append p [] c b h = rw h refl
split-append p (x ∷ a) c b h = elim (Bool-cases (p x)) [
  | inl e ↦ rw e (ap (λ t. [] ∷ t) (split-append p a c b h))
  | inr e ↦
      rw (e, split-append p a c b h) (push_head-append x (split p a) (split p b) (split-cons p a))
]

pub any-append {ℓ} :
    {A : Type ℓ} (p : A → Bool) (xs ys : List A) → any p (xs ++ ys) ≡ (any p xs || any p ys)
any-append p [] ys = refl
any-append p (x ∷ xs) ys = ground (arith, any-append p xs ys)

-- A text without a separator is its only piece.
pub split_id : (p : ℕ → Bool) (s : Text) → All (λ c. p c ≡ false) s → split p s ≡ s ∷ []
unfolding split push_head
split_id p [] h = refl
split_id p (c ∷ s) h = rw (h.0, split_id p s h.1) refl

trim_start_id : (p : ℕ → Bool) (s : Text) → All (λ c. p c ≡ false) s → trim_start p s ≡ s
unfolding trim_start
trim_start_id p [] h = refl
trim_start_id p (c ∷ s) h = rw h.0 refl

-- A text without whitespace is not changed by `trim`.
pub trim_id : (s : Text) → All (λ c. is_whitespace c ≡ false) s → trim s ≡ s
unfolding trim trim_end
trim_id s h =
    ap (λ t. reverse (trim_start is_whitespace (reverse t))) (trim_start_id is_whitespace s h)
    ∙ ap reverse (trim_start_id is_whitespace (reverse s) (All-reverse _ s h))
    ∙ reverse-reverse s

pub strip_prefix-append : (p s : Text) → strip_prefix p (p ++ s) ≡ some s
unfolding strip_prefix
strip_prefix-append [] s = refl
strip_prefix-append (c ∷ p) s = ground (arith, strip_prefix-append p s)

-- The first separator is the one behind a text that has none.
pub split_once-append :
    (c : ℕ) (a s : Text) → All (λ d. (d == c) ≡ false) a → split_once c (a ++ c ∷ s) ≡ some (a, s)
unfolding split_once
split_once-append c [] s h = ground arith
split_once-append c (x ∷ a) s h = rw (h.0, split_once-append c a s h.1) refl

pub mem_text-All {κ} :
    (P : Text → Type κ) (x : Text) (xs : List Text) → All P xs → mem_text x xs ≡ true → P x
unfolding mem_text
mem_text-All P x [] h m = absurd (cc (m))
mem_text-All P x (y ∷ ys) h m = elim (Bool-cases (text_eq y x)) [
  | inl e ↦ subst P (text_eq_sound y x e) h.0
  | inr e ↦ mem_text-All P x ys h.1 (rw e at m)
]
