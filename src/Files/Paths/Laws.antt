-- ===== src/Files/Paths/Laws.antt =====
-- files.rs: what `sensitive` refuses, however the path is written.
use agora_protocol.Base.{
  ℕ, ◌≡◌, refl, sym, ap, ◌∙◌, Bool, true, false, ◌||◌, [], ◌∷◌, ◌++◌, Text, mem_text, split,
  to_lowercase, to_uppercase, lower, upper, replace_chars, any, All, arith, ◌==◌, if◌then◌else◌,
}
use mathlib.Core.Path.{ap₂}
use agora_protocol.Base.TextLaws.{split-append, any-append, split_id}
use agora_protocol.Files.Paths.{private_dirs, is_slash, normal, in_private_dir, sensitive}

lower-upper : (c : ℕ) → lower (upper c) ≡ lower c
unfolding lower upper
lower-upper c = ground arith

normal_char : ℕ → ℕ
normal_char c = lower (if c == 0x5c then b'/' else c)

normal_char-upper : (c : ℕ) → normal_char (upper c) ≡ normal_char c
unfolding normal_char lower upper
normal_char-upper c = ground arith

normal_char-backslash : (c : ℕ) → normal_char (if is_slash c then 0x5c else c) ≡ normal_char c
unfolding normal_char lower
normal_char-backslash c = ground arith

normal-cons : (c : ℕ) (p : Text) → normal (c ∷ p) ≡ normal_char c ∷ normal p
unfolding normal to_lowercase replace_chars normal_char
normal-cons c p = refl

normal-to_uppercase : (p : Text) → normal (to_uppercase p) ≡ normal p
unfolding to_uppercase
normal-to_uppercase [] = refl
normal-to_uppercase (c ∷ p) =
    normal-cons (upper c) (to_uppercase p)
    ∙ ap₂ (λ x t. x ∷ t) (normal_char-upper c) (normal-to_uppercase p)
    ∙ sym (normal-cons c p)

normal-backslashes : (p : Text) → normal (replace_chars is_slash 0x5c p) ≡ normal p
unfolding replace_chars
normal-backslashes [] = refl
normal-backslashes (c ∷ p) =
    normal-cons _ (replace_chars is_slash 0x5c p)
    ∙ ap₂ (λ x t. x ∷ t) (normal_char-backslash c) (normal-backslashes p)
    ∙ sym (normal-cons c p)

normal-append : (a b : Text) → normal (a ++ b) ≡ normal a ++ normal b
unfolding normal to_lowercase replace_chars
normal-append [] b = refl
normal-append (c ∷ a) b = ap (λ t. lower (if c == 0x5c then b'/' else c) ∷ t) (normal-append a b)

-- The answer is the same for the path in capitals and for the path with backslashes.
pub sensitive-spelling :
    (p : Text)
    → (sensitive (to_uppercase p) ≡ sensitive p)
      × (sensitive (replace_chars is_slash 0x5c p) ≡ sensitive p)
unfolding sensitive
sensitive-spelling p = (rw (normal-to_uppercase p) refl, rw (normal-backslashes p) refl)

normal-component :
    (a d b : Text)
    → normal (a ++ b'/' ∷ (d ++ b'/' ∷ b)) ≡ normal a ++ b'/' ∷ (normal d ++ b'/' ∷ normal b)
normal-component a d b =
    normal-append a _
    ∙ ap (λ t. normal a ++ t)
        (normal-cons b'/' _
          ∙ ap₂ (λ x t. x ∷ t) slash_lower
              (normal-append d _
                ∙ ap (λ t. normal d ++ t)
                    (normal-cons b'/' b ∙ ap (λ x. x ∷ normal b) slash_lower)))
  where
    slash_lower : normal_char b'/' ≡ b'/'
    slash_lower = unfold normal_char lower in refl

or_true : (a x y z : Bool) → (((a || (true || x)) || y) || z) ≡ true
or_true a x y z = ground arith

-- A path with a component that is a private directory, in any case of its letters, is refused,
-- wherever the component stands between two slashes.
pub sensitive-private_dir :
    (a d b : Text)
    → All (λ c. is_slash c ≡ false) (normal d)
    → mem_text (normal d) private_dirs ≡ true
    → sensitive (a ++ b'/' ∷ (d ++ b'/' ∷ b)) ≡ true
unfolding sensitive in_private_dir
sensitive-private_dir a d b whole h =
    rw
      (
        normal-component a d b,
        split-append is_slash (normal a) b'/' _ refl,
        split-append is_slash (normal d) b'/' (normal b) refl,
        split_id is_slash (normal d) whole,
        any-append (λ c. mem_text c private_dirs) (split is_slash (normal a)) _,
        h,
      )
      (or_true _ (any (λ c. mem_text c private_dirs) (split is_slash (normal b))) _ _)
