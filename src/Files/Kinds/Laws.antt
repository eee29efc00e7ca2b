-- ===== src/Files/Kinds/Laws.antt =====
-- files.rs: what `classify` tells of the bytes.
use agora_protocol.Base.{
  ◌≡◌, refl, ◌↔◌, ◌⊎◌, true, false, inl, inr, List, [], ◌∷◌, ◌++◌, Bytes, mem, starts_with,
  Bool-cases, arith,
}
use agora_protocol.Base.TextLaws.{starts_with-append, starts_with_sound}
use agora_protocol.Files.Kinds.{text, executable, executable_magic, has_magic, is_utf8, classify}

-- `m` is one of the listed magic numbers.
abbrev pub OneOf : List Bytes → Bytes → Type 0
OneOf [] m = ⊥
OneOf (x ∷ xs) m = (x ≡ m) ⊎ OneOf xs m

has_magic-append : (ms : List Bytes) (m r : Bytes) → OneOf ms m → has_magic ms (m ++ r) ≡ true
unfolding has_magic
has_magic-append [] m r h = absurd h
has_magic-append (x ∷ ms) m r (inl e) = rw (← e) (rw (starts_with-append x r) refl)
has_magic-append (x ∷ ms) m r (inr h) = ground (arith, has_magic-append ms m r h)

has_magic_sound :
    (ms : List Bytes) (b : Bytes)
    → has_magic ms b ≡ true
    → (m : Bytes) × (r : Bytes) × OneOf ms m × (b ≡ m ++ r)
unfolding has_magic
has_magic_sound [] b h = absurd (ground arith)
has_magic_sound (x ∷ ms) b h = elim (Bool-cases (starts_with x b)) [
  | inl e ↦ let r = starts_with_sound x b e in (x, r.0, inl refl, r.1)
  | inr e ↦ let rest = has_magic_sound ms b (rw e at h) in (rest.0, rest.1, inr rest.2, rest.3)
]

classify_iff : (b : Bytes) → (classify b ≡ executable) ↔ (has_magic executable_magic b ≡ true)
unfolding classify
classify_iff b = ((λ h. ground arith), λ h. rw h refl)

-- Content is called executable exactly when it begins with one of the nine magic numbers of
-- programs: whatever follows such a number cannot turn it into another kind, and nothing else is
-- called executable.
pub classify-executable :
    (b : Bytes)
    → (classify b ≡ executable)
      ↔ ((m : Bytes) × (r : Bytes) × OneOf executable_magic m × (b ≡ m ++ r))
classify-executable b = (
  λ h. has_magic_sound executable_magic b ((classify_iff b).0 h),
  λ h. (classify_iff b).1 (rw h.3 (has_magic-append executable_magic h.0 h.1 h.2)),
)

-- What is called text is UTF-8 and has no zero byte, so it is read as text without failing.
pub classify-text : (b : Bytes) → classify b ≡ text → (is_utf8 b ≡ true) × (mem 0 b ≡ false)
unfolding classify
classify-text b h = (ground arith, ground arith)
