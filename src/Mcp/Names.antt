-- ===== src/Mcp/Names.antt =====
-- mcp.rs: the name that an agent gets is valid, whatever the client and the folder are called.
use agora_protocol.Base.{
  ℕ, ◌≤◌, ◌≡◌, refl, Bool, true, false, ◌||◌, inl, inr, [], ◌∷◌, ◌++◌, Option, Bool-cases, Text,
  codes, contains, is_alphanumeric, is_empty, byte_len, utf8_width, length, length-append,
  length-take, all, All, All-append, All-take, All→all, all→All, leb, leb→le, arith, to_lowercase,
  trim_start, trim_end, ◌==◌, if◌then◌else◌,
}
use agora_protocol.Base.TextLaws.{All-trim_start, All-trim_end}
use agora_protocol.Config.Names.{is_name_char, valid_name}
use agora_protocol.Mcp.{
  is_slug_char, is_dash, slug_chars, slug, client_names, project_of, identity_for,
}

abbrev IsPlain : Text → Type 0
IsPlain s = All (λ c. is_name_char c ≡ true) s

slug_char-is_name_char : (c : ℕ) → is_slug_char c ≡ true → is_name_char c ≡ true
unfolding is_name_char
slug_char-is_name_char c h = ground (arith, h)

slug_chars-IsPlain : (dash : Bool) (s : Text) → IsPlain (slug_chars dash s)
unfolding slug_chars is_name_char is_alphanumeric
slug_chars-IsPlain dash [] = tt
slug_chars-IsPlain dash (c ∷ s) = elim (Bool-cases (is_slug_char c)) [
  | inl e ↦ rw e (slug_char-is_name_char c e, slug_chars-IsPlain false s)
  | inr e ↦ elim (Bool-cases dash) [
    | inl d ↦ rw (e, d) (slug_chars-IsPlain true s)
    | inr d ↦ rw (e, d) (refl, slug_chars-IsPlain true s)
  ]
]

slug-IsPlain : (s : Text) → IsPlain (slug s)
unfolding slug
slug-IsPlain s = All-take _ 40 _ (
    All-trim_end is_dash _ _
      (All-trim_start is_dash _ _ (slug_chars-IsPlain false (to_lowercase s))))

length-slug : (s : Text) → length (slug s) ≤ 40
unfolding slug
length-slug s = omega (
  arith,
  length-take 40 (trim_end is_dash (trim_start is_dash (slug_chars false (to_lowercase s)))),
)

-- A character of a name is one byte.
width_one : (c : ℕ) → is_name_char c ≡ true → utf8_width c ≡ 1
unfolding utf8_width is_name_char is_alphanumeric
width_one c h = ground (arith, h)

byte_len-length : (s : Text) → IsPlain s → byte_len s ≡ length s
unfolding byte_len
byte_len-length [] h = refl
byte_len-length (c ∷ s) h = omega (arith, width_one c h.0, byte_len-length s h.1)

all_dots-append :
    (s t : Text) → all (λ b. b == b'.') s ≡ false → all (λ b. b == b'.') (s ++ t) ≡ false
all_dots-append [] t h = absurd (cc (h))
all_dots-append (c ∷ s) t h = elim (Bool-cases (c == b'.')) [
  | inl e ↦ rw e (all_dots-append s t (rw e at h))
  | inr e ↦ rw e refl
]

-- What makes a text short enough to stand before a slug.
record IsShort (s : Text) : Type 0 where
  pub plain : IsPlain s
  pub short : length s ≤ 20
  pub not_dots : all (λ b. b == b'.') s ≡ false

plain_name :
    (s : Text) → IsPlain s → length s ≤ 64 → all (λ b. b == b'.') s ≡ false → valid_name s ≡ true
unfolding valid_name
plain_name [] p l d = absurd (cc (d))
plain_name (c ∷ s) p l d =
    rw (All→all is_name_char (c ∷ s) p, d) (ground (arith, byte_len-length (c ∷ s) p, l))

either-IsShort :
    (b : Bool) (x y : Text × Text) → IsShort x.0 → IsShort y.0 → IsShort (if b then x else y).0
either-IsShort true x y p q = p
either-IsShort false x y p q = q

literal-IsShort :
    (s : Text)
    → all is_name_char s ≡ true
    → leb (length s) 20 ≡ true
    → all (λ b. b == b'.') s ≡ false
    → IsShort s
literal-IsShort s p l d = record {
  plain = all→All is_name_char s p;
  short = leb→le (length s) 20 l;
  not_dots = d;
}

client_names-IsShort : (c : Text) → IsShort (client_names c).0
unfolding client_names is_name_char is_alphanumeric
client_names-IsShort c =
    either-IsShort (contains (codes "visual studio code") c || contains (codes "vscode") c) _ _
      (literal-IsShort (codes "copilot") refl refl refl)
      (either-IsShort (contains (codes "claude") c) _ _
        (literal-IsShort (codes "claude") refl refl refl)
        (either-IsShort (contains (codes "codex") c) _ _
          (literal-IsShort (codes "codex") refl refl refl)
          (either-IsShort (contains (codes "cursor") c) _ _
            (literal-IsShort (codes "cursor") refl refl refl)
            (literal-IsShort (codes "agent") refl refl refl))))

-- Whatever a client and the folder of a project are called, the name that the agent gets is one that
-- the node accepts.
pub identity_for-valid_name :
    (client : Text) (root : Option Text) → valid_name (identity_for client root).0 ≡ true
unfolding identity_for is_alphanumeric
identity_for-valid_name client root =
    let n = client_names-IsShort (to_lowercase client) in
    elim (Bool-cases (is_empty (slug (project_of root)))) [
      | inl e ↦ rw e (plain_name _ n.plain (omega (arith, n.short)) n.not_dots)
      | inr e ↦ rw e (
          plain_name _
            (All-append _ _ _ n.plain (unfold is_name_char in refl, slug-IsPlain (project_of root)))
            (omega (
              arith,
              n.short,
              length-slug (project_of root),
              length-append (client_names (to_lowercase client)).0 (b'-' ∷ slug (project_of root)),
            ))
            (all_dots-append (client_names (to_lowercase client)).0 (b'-' ∷ slug (project_of root))
              n.not_dots))
    ]
