-- ===== src/Node/Address/OneTime.antt =====
-- node.rs and relay.rs: invitations that are taken out of a list by a secret, so that each works once.
use agora_protocol.Base.{
  ◌≡◌, refl, sym, ap, ◌∙◌, subst, Bool, true, false, inl, inr, ◌&&◌, List, [], ◌∷◌, Option, none,
  some, Option-cases, Bool-cases, Text, text_eq, text_eq_sound, retain, find, All, All-retain,
  eq_of_some, if◌then◌else◌,
}
use agora_protocol.Node.Address.{ct_eq}
use agora_protocol.Node.Address.Secrets.{IsByte, ct_eq-text_eq}

module _ {A : Type 0} where
  -- `position(p)` and `remove(i)`: the first that passes the test, and the others.
  unfoldable pub take_first : (A → Bool) → List A → Option (A × List A)
  take_first p [] = none
  take_first p (i ∷ is) =
      let later = take_first p is in
      if p i then some (i, is) else elim later [ none ↦ none | some (j, js) ↦ some (j, i ∷ js) ]

  chosen_of : (r s : A × List A) → some r ≡ some s → r.0 ≡ s.0
  chosen_of r s h = ap (λ (r : A × List A). r.0) (eq_of_some _ _ h)

  others_of : (r s : A × List A) → some r ≡ some s → r.1 ≡ s.1
  others_of r s h = ap (λ (r : A × List A). r.1) (eq_of_some _ _ h)

  -- The first that passes the test behind the filter is the first that passes both.
  pub take_first-find :
      (p q : A → Bool) (is : List A) (i : A) (others : List A)
      → take_first p (retain q is) ≡ some (i, others)
      → find (λ x. q x && p x) is ≡ some i
  unfolding take_first
  take_first-find p q [] i others h = absurd (cc)
  take_first-find p q (x ∷ is) i others h = elim (Bool-cases (q x)) [
    | inr e ↦ rw e (take_first-find p q is i others (rw e at h))
    | inl e ↦ elim (Bool-cases (p x)) [
      | inl f ↦ rw (e, f) (ap some (chosen_of _ _ (rw f at (rw e at h))))
      | inr f ↦ elim (Option-cases (take_first p (retain q is))) [
        | inl n ↦ absurd (cc (rw n at (rw f at (rw e at h))))
        | inr (r, n) ↦
            rw (e, f)
              (take_first-find p q is i r.1
                (n ∙ ap (λ j. some (j, r.1)) (chosen_of _ _ (rw n at (rw f at (rw e at h))))))
      ]
    ]
  ]

  pub take_first-none :
      (p : A → Bool) (is : List A) → All (λ x. p x ≡ false) is → take_first p is ≡ none
  unfolding take_first
  take_first-none p [] h = refl
  take_first-none p (i ∷ is) h = rw (h.0, take_first-none p is h.1) refl

  pub take_first-absent :
      (p : A → Bool) (is : List A) → take_first p is ≡ none → All (λ x. p x ≡ false) is
  unfolding take_first
  take_first-absent p [] h = tt
  take_first-absent p (i ∷ is) h = elim (Bool-cases (p i)) [
    | inl f ↦ absurd (cc (rw f at h))
    | inr f ↦ elim (Option-cases (take_first p is)) [
      | inl n ↦ (f, take_first-absent p is n)
      | inr (r, n) ↦ absurd (cc (rw n at (rw f at h)))
    ]
  ]

  pub All-take_first :
      (P : A → Type 0) (p : A → Bool) (is : List A) (i : A) (others : List A)
      → All P is
      → take_first p is ≡ some (i, others)
      → P i × All P others
  unfolding take_first
  All-take_first P p [] i others d h = absurd (cc)
  All-take_first P p (x ∷ is) i others d h = elim (Bool-cases (p x)) [
    | inl f ↦
        (subst P (chosen_of _ _ (rw f at h)) d.0, subst (All P) (others_of _ _ (rw f at h)) d.1)
    | inr f ↦ elim (Option-cases (take_first p is)) [
      | inl n ↦ absurd (cc (rw n at (rw f at h)))
      | inr (r, n) ↦
          let g = All-take_first P p is r.0 r.1 d.1 n in
          (
            subst P (chosen_of _ _ (rw n at (rw f at h))) g.0,
            subst (All P) (others_of _ _ (rw n at (rw f at h))) (d.0, g.1),
          )
    ]
  ]

  module _ (code : A → Text) where
    -- Two invitations have different codes.
    abbrev pub CodeDiffers : A → A → Type 0
    CodeDiffers i x = text_eq (code x) (code i) ≡ false

    -- The codes are bytes, and no two invitations have the same.
    abbrev pub HasDistinctCodes : List A → Type 0
    HasDistinctCodes [] = Unit
    HasDistinctCodes (i ∷ is) = All IsByte (code i) × All (CodeDiffers i) is × HasDistinctCodes is

    pub retain-HasDistinctCodes :
        (p : A → Bool) (is : List A) → HasDistinctCodes is → HasDistinctCodes (retain p is)
    retain-HasDistinctCodes p [] h = tt
    retain-HasDistinctCodes p (i ∷ is) h = elim (Bool-cases (p i)) [
      | inl e ↦ rw e (h.0, All-retain (CodeDiffers i) p is h.1, retain-HasDistinctCodes p is h.2)
      | inr e ↦ rw e (retain-HasDistinctCodes p is h.2)
    ]

    module _ (h : Text) (bytes : All IsByte h) where
      abbrev opens : A → Bool
      opens i = ct_eq (code i) h

      other_code :
          (i : A) (is : List A)
          → opens i ≡ true
          → All IsByte (code i)
          → HasDistinctCodes is
          → All (CodeDiffers i) is
          → All (λ x. opens x ≡ false) is
      other_code i [] e b d a = tt
      other_code i (x ∷ is) e b d a = (
        ct_eq-text_eq (code x) h d.0 bytes
            ∙ subst (λ t. text_eq (code x) t ≡ false)
                (text_eq_sound (code i) h (sym (ct_eq-text_eq (code i) h b bytes) ∙ e)) a.0,
        other_code i is e b d.2 a.1,
      )

      -- No invitation that is left has the code of the one that was taken.
      pub take_first-others :
          (is : List A) (i : A) (others : List A)
          → HasDistinctCodes is
          → take_first opens is ≡ some (i, others)
          → All (λ x. ct_eq (code x) h ≡ false) others
      unfolding take_first
      take_first-others [] i others d e = absurd (cc)
      take_first-others (x ∷ is) i others d e = elim (Bool-cases (opens x)) [
        | inl f ↦
            subst (All (λ y. opens y ≡ false)) (others_of _ _ (rw f at e))
              (other_code x is f d.0 d.2 d.1)
        | inr f ↦ elim (Option-cases (take_first opens is)) [
          | inl n ↦ absurd (cc (rw n at (rw f at e)))
          | inr (r, n) ↦
              subst (All (λ y. opens y ≡ false)) (others_of _ _ (rw n at (rw f at e)))
                (f, take_first-others is r.0 r.1 d.2 n)
        ]
      ]
