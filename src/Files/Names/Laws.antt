-- ===== src/Files/Names/Laws.antt =====
-- files.rs: every name that `safe_name` gives is safe to store.
use agora_protocol.Base.{
  ℕ, ◌≤◌, ◌<◌, ◌≡◌, true, false, [], ◌∷◌, ◌++◌, Text, is_alphanumeric, length, All, arith,
}
use agora_protocol.Files.Names.{is_separator, is_dot, is_safe_char, is_reserved, is_risky}

abbrev pub IsSafeChar : ℕ → Type 0
IsSafeChar c = is_safe_char c ≡ true

-- The first character is no dot.
abbrev pub HasNoLeadingDot : Text → Type 0
HasNoLeadingDot [] = Unit
HasNoLeadingDot (c ∷ s) = is_dot c ≡ false

pub HasNoLeadingDot-grow :
    (s t : Text) → 0 < length s → HasNoLeadingDot s → HasNoLeadingDot (s ++ t)
HasNoLeadingDot-grow [] t l h = absurd (omega arith)
HasNoLeadingDot-grow (c ∷ s) t l h = h

-- A name that can be stored: it holds no separator and no other special character, it is neither
-- empty nor hidden nor longer than 105 characters, and it is neither a device name nor a name whose
-- extension a desktop runs.
pub record IsSafeName (s : Text) : Type 0 where
  pub chars : All IsSafeChar s
  pub visible : HasNoLeadingDot s
  pub nonempty : 0 < length s
  pub short : length s ≤ 105
  pub no_device : is_reserved s ≡ false
  pub inert : is_risky s ≡ false

-- A stored name has no path separator.
pub IsSafeChar-not_separator : (c : ℕ) → IsSafeChar c → is_separator c ≡ false
unfolding is_safe_char is_alphanumeric
IsSafeChar-not_separator c h = ground arith
