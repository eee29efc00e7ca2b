-- ===== src/Files/Names/TrailingDot.antt =====
-- files.rs: `safe_name` trims the dots at the end before it cuts the name to 100 characters.
use mathlib.Core.List.{reverse-append, reverse-reverse}
use agora_protocol.Base.{
  ℕ, ◌≡◌, refl, sym, ap, ◌∙◌, Bool, false, [], ◌∷◌, ◌++◌, map, reverse, Text, take, take-append,
  before, after_last, trim_start, trim_end, length, length-append, All, All-append, All-imp,
  is_alphanumeric, arith, subst, ◌<◌, text_eq, mem_text, to_lowercase,
}
use agora_protocol.Base.TextLaws.{rsplit_once-append, All-reverse}
use agora_protocol.Files.Names.{
  is_separator, is_dot, is_safe_char, safe_char, base_name, or_file, is_reserved, unreserve,
  is_risky, risky_extension, risky_extensions, disarm, safe_name,
}
use agora_protocol.Files.Names.Laws.{
  IsSafeChar, HasNoLeadingDot, HasNoLeadingDot-grow, IsSafeChar-not_separator,
}

before_id : (p : ℕ → Bool) (s : Text) → All (λ c. p c ≡ false) s → before p s ≡ s
unfolding before
before_id p [] h = refl
before_id p (c ∷ s) h = rw (h.0, before_id p s h.1) refl

after_last_id : (p : ℕ → Bool) (s : Text) → All (λ c. p c ≡ false) s → after_last p s ≡ s
unfolding after_last
after_last_id p s h = rw (before_id p (reverse s) (All-reverse _ s h)) (reverse-reverse s)

map-safe_char_id : (s : Text) → All IsSafeChar s → map safe_char s ≡ s
map-safe_char_id [] h = refl
map-safe_char_id (c ∷ s) h = rw (h.0, map-safe_char_id s h.1) refl

trim_start_id : (s : Text) → HasNoLeadingDot s → trim_start is_dot s ≡ s
unfolding trim_start
trim_start_id [] h = refl
trim_start_id (c ∷ s) h = rw h refl

trim_end_id : (s : Text) (c : ℕ) → is_dot c ≡ false → trim_end is_dot (s ++ c ∷ []) ≡ s ++ c ∷ []
unfolding trim_end
trim_end_id s c h =
    ap (λ t. reverse (trim_start is_dot t)) (reverse-append s (c ∷ []))
    ∙ ap reverse (trim_start_id (c ∷ reverse s) h)
    ∙ ap reverse (sym (reverse-append s (c ∷ [])))
    ∙ reverse-reverse (s ++ c ∷ [])

trailing_dot-not_risky : (v : Text) → is_risky (v ++ b'.' ∷ []) ≡ false
unfolding is_risky risky_extension to_lowercase mem_text text_eq risky_extensions
trailing_dot-not_risky v = rw (rsplit_once-append b'.' v [] tt) refl

stored :
    (s : Text)
    → 0 < length s
    → is_reserved s ≡ false
    → is_risky s ≡ false
    → disarm (unreserve (or_file s)) ≡ s
unfolding disarm unreserve or_file
stored [] l h k = absurd (omega arith)
stored (c ∷ s) l h k = rw (h, k) refl

module _ (v : Text) (c : ℕ) (full : length v ≡ 99) (chars : All IsSafeChar v)
    (visible : HasNoLeadingDot v) (last : IsSafeChar c) (last_ne_dot : is_dot c ≡ false) where
  abbrev sent : Text
  sent = (v ++ b'.' ∷ []) ++ c ∷ []

  sent-IsSafeChar : All IsSafeChar sent
  sent-IsSafeChar =
      All-append _ (v ++ b'.' ∷ []) _
        (All-append _ v _ chars (unfold is_safe_char is_alphanumeric in refl, tt)) (last, tt)

  sent-HasNoLeadingDot : HasNoLeadingDot sent
  sent-HasNoLeadingDot =
      HasNoLeadingDot-grow (v ++ b'.' ∷ []) _ (omega (arith, length-append v (b'.' ∷ [])))
        (HasNoLeadingDot-grow v _ (omega arith) visible)

  full_stem : length (v ++ b'.' ∷ []) ≡ 100
  full_stem = omega (arith, length-append v (b'.' ∷ []))

  base_name-sent : base_name sent ≡ v ++ b'.' ∷ []
  unfolding base_name
  base_name-sent =
      ap (λ t. take 100 (trim_end is_dot (trim_start is_dot (map safe_char t))))
        (after_last_id is_separator sent
          (All-imp _ _ sent IsSafeChar-not_separator sent-IsSafeChar))
      ∙ ap (λ t. take 100 (trim_end is_dot (trim_start is_dot t)))
          (map-safe_char_id sent sent-IsSafeChar)
      ∙ ap (λ t. take 100 (trim_end is_dot t)) (trim_start_id sent sent-HasNoLeadingDot)
      ∙ ap (take 100) (trim_end_id (v ++ b'.' ∷ []) c last_ne_dot)
      ∙ subst (λ n. take n sent ≡ v ++ b'.' ∷ []) full_stem (take-append (v ++ b'.' ∷ []) (c ∷ []))

  -- Take a name of 99 safe characters that does not begin with a dot, then a dot, then one more safe
  -- character. The stored name is the 99 characters and the dot, if that is no device name: the
  -- extension that the risk test reads is empty, whatever the 99 characters end in.
  pub safe_name-trailing_dot :
      is_reserved (v ++ b'.' ∷ []) ≡ false
      → (safe_name sent ≡ v ++ b'.' ∷ []) × (is_risky (v ++ b'.' ∷ []) ≡ false)
  unfolding safe_name
  safe_name-trailing_dot plain =
      (rw base_name-sent (stored (v ++ b'.' ∷ []) (omega (arith, full_stem)) plain dotted), dotted)
    where
      dotted : is_risky (v ++ b'.' ∷ []) ≡ false
      dotted = trailing_dot-not_risky v
