-- ===== src/Base/Strings.antt =====
-- Texts as lists of code points and byte strings as lists of bytes, with Rust's `str` methods that
-- the program calls. A key of a map, a name and a key of 32 bytes are such lists.
use Prim.Native.Nat.{ℕ, zero, suc, ◌+◌, ◌-◌, ◌/◌, ◌%◌}
use Prim.Native.Char.{code}
use Prim.Native.String.{String}
use mathlib.Core.Path.{◌≡◌, refl}
use mathlib.Core.Logic.{◌↔◌}
use mathlib.Core.Bool.{Bool, true, false, ◌&&◌, ◌||◌}
use mathlib.Core.List.{List, [], ◌∷◌, map, reverse, ◌++◌}
use mathlib.Core.Option
use mathlib.Core.Option.{Option, none, some}
use native.Mathlib.Omega.{arith}
use agora_protocol.Base.Tests.{ltb, ◌==◌, if◌then◌else◌, between}
use agora_protocol.Base.Lists.{any}

abbrev pub Text : Type 0
Text = List ℕ

abbrev pub Bytes : Type 0
Bytes = List ℕ

-- The code points of a literal.
abbrev pub codes : String → List ℕ
codes String.[] = []
codes (String.◌∷◌ c s) = code c ∷ codes s

unfoldable pub text_eq : List ℕ → List ℕ → Bool
text_eq [] [] = true
text_eq [] (y ∷ ys) = false
text_eq (x ∷ xs) [] = false
text_eq (x ∷ xs) (y ∷ ys) = x == y && text_eq xs ys

pub text_eq_sound : (a b : List ℕ) → text_eq a b ≡ true → a ≡ b
unfolding text_eq
text_eq_sound [] [] h = refl
text_eq_sound [] (y ∷ ys) h = ground arith
text_eq_sound (x ∷ xs) [] h = ground arith
text_eq_sound (x ∷ xs) (y ∷ ys) h = ground (arith, text_eq_sound xs ys)

pub text_eq_refl : (a : List ℕ) → text_eq a a ≡ true
unfolding text_eq
text_eq_refl [] = refl
text_eq_refl (x ∷ xs) = ground (arith, text_eq_refl xs)

pub text_eq_iff : (a b : List ℕ) → (text_eq a b ≡ true) ↔ (a ≡ b)
text_eq_iff a b = (text_eq_sound a b, λ e. rw e (text_eq_refl b))

-- `unwrap_or`
unfoldable pub unwrap_or : Text → Option Text → Text
unwrap_or d none = d
unwrap_or d (some t) = t

-- `join(sep)`
unfoldable pub join_with : Text → List Text → Text
join_with sep [] = []
join_with sep (t ∷ []) = t
join_with sep (t ∷ u ∷ ts) = t ++ sep ++ join_with sep (u ∷ ts)

-- `[..].contains(&x)`
unfoldable pub mem_text : List ℕ → List (List ℕ) → Bool
mem_text x [] = false
mem_text x (y ∷ ys) = text_eq y x || mem_text x ys

unfoldable pub starts_with : List ℕ → List ℕ → Bool
starts_with [] s = true
starts_with (p ∷ ps) [] = false
starts_with (p ∷ ps) (c ∷ s) = p == c && starts_with ps s

unfoldable pub ends_with : List ℕ → List ℕ → Bool
unfolding starts_with
ends_with p s = starts_with (reverse p) (reverse s)

-- `contains(pattern)`
unfoldable pub contains : List ℕ → List ℕ → Bool
unfolding starts_with
contains p [] = starts_with p []
contains p (c ∷ s) = starts_with p (c ∷ s) || contains p s

unfoldable pub mem : ℕ → List ℕ → Bool
mem c s = any (λ d. d == c) s

-- `trim_start_matches(p)` and `trim_end_matches(p)`
unfoldable pub trim_start : (ℕ → Bool) → Text → Text
trim_start p [] = []
trim_start p (c ∷ s) = if p c then trim_start p s else c ∷ s

unfoldable pub trim_end : (ℕ → Bool) → Text → Text
unfolding trim_start
trim_end p s = reverse (trim_start p (reverse s))

-- The text before the first separator, which is `split(p).next()`.
unfoldable pub before : (ℕ → Bool) → Text → Text
before p [] = []
before p (c ∷ s) = if p c then [] else c ∷ before p s

unfoldable pub push_head : ℕ → List Text → List Text
push_head c [] = (c ∷ []) ∷ []
push_head c (t ∷ ts) = (c ∷ t) ∷ ts

-- `split(p)`
unfoldable pub split : (ℕ → Bool) → Text → List Text
unfolding push_head
split p [] = [] ∷ []
split p (c ∷ s) = let rest = split p s in if p c then [] ∷ rest else push_head c rest

-- The text behind the last separator, which is `rsplit(p).next()`.
unfoldable pub after_last : (ℕ → Bool) → Text → Text
unfolding before
after_last p s = reverse (before p (reverse s))

cons_left : ℕ → Text × Text → Text × Text
cons_left c (a, b) = (c ∷ a, b)

-- `split_once(c)`
unfoldable pub split_once : ℕ → Text → Option (Text × Text)
unfolding cons_left
split_once c [] = none
split_once c (x ∷ s) =
    let rest = Option.map (cons_left x) (split_once c s) in if x == c then some ([], s) else rest

-- `rsplit_once(c)`
unfoldable pub rsplit_once : ℕ → Text → Option (Text × Text)
unfolding cons_left
rsplit_once c [] = none
rsplit_once c (x ∷ s) = elim (rsplit_once c s) [
  | some (a, b) ↦ some (x ∷ a, b)
  | none ↦ if x == c then some ([], s) else none
]

-- `strip_prefix(p)`
unfoldable pub strip_prefix : Text → Text → Option Text
strip_prefix [] s = some s
strip_prefix (p ∷ ps) [] = none
strip_prefix (p ∷ ps) (c ∷ s) = let rest = strip_prefix ps s in if p == c then rest else none

-- `replace([..], with)` of single characters
unfoldable pub replace_chars : (ℕ → Bool) → ℕ → Text → Text
replace_chars p r = map (λ c. if p c then r else c)

abbrev pub is_upper : ℕ → Bool
is_upper c = between b'A' b'Z' c

abbrev pub is_lower : ℕ → Bool
is_lower c = between b'a' b'z' c

abbrev pub is_digit : ℕ → Bool
is_digit c = between b'0' b'9' c

-- `is_ascii_alphanumeric`
unfoldable pub is_alphanumeric : ℕ → Bool
is_alphanumeric c = is_lower c || is_upper c || is_digit c

unfoldable pub lower : ℕ → ℕ
lower c = if is_upper c then c + 32 else c

unfoldable pub upper : ℕ → ℕ
upper c = if is_lower c then c - 32 else c

-- `to_ascii_lowercase` and `to_ascii_uppercase`
unfoldable pub to_lowercase : Text → Text
unfolding lower
to_lowercase = map lower

unfoldable pub to_uppercase : Text → Text
unfolding upper
to_uppercase = map upper

-- `char::is_whitespace`: Unicode's White_Space.
unfoldable pub is_whitespace : ℕ → Bool
is_whitespace c =
    between 9 13 c
    || c == 32
    || c == 0x85
    || c == 0xA0
    || c == 0x1680
    || between 0x2000 0x200A c
    || between 0x2028 0x2029 c
    || c == 0x202F
    || c == 0x205F
    || c == 0x3000

-- `char::is_control`: Unicode's Cc.
unfoldable pub is_control : ℕ → Bool
is_control c = ltb c 32 || between 0x7F 0x9F c

unfoldable pub trim : Text → Text
unfolding trim_start trim_end is_whitespace
trim s = trim_end is_whitespace (trim_start is_whitespace s)

-- The bytes that a character takes in UTF-8; `len()` of a `str` is their sum.
unfoldable pub utf8_width : ℕ → ℕ
utf8_width c = if ltb c 0x80 then 1 else if ltb c 0x800 then 2 else if ltb c 0x10000 then 3 else 4

unfoldable pub byte_len : Text → ℕ
unfolding utf8_width
byte_len [] = 0
byte_len (c ∷ s) = utf8_width c + byte_len s

-- The decimal digits of a number, as `{}` prints it; the fuel is the number itself and one more.
unfoldable pub decimal_go : ℕ → ℕ → Text → Text
decimal_go zero n acc = acc
decimal_go (suc f) n acc =
    let rest = decimal_go f (n / 10) ((b'0' + n % 10) ∷ acc) in
    if ltb n 10 then (b'0' + n) ∷ acc else rest

unfoldable pub decimal : ℕ → Text
unfolding decimal_go
decimal n = decimal_go (suc n) n []

pub text_eq_comm : (a b : List ℕ) → text_eq a b ≡ text_eq b a
unfolding text_eq
text_eq_comm [] [] = refl
text_eq_comm [] (y ∷ ys) = refl
text_eq_comm (x ∷ xs) [] = refl
text_eq_comm (x ∷ xs) (y ∷ ys) = ground (arith, text_eq_comm xs ys)
