-- ===== src/Guard/Checks.antt =====
-- guard.rs: the replacements of the rules, with the checks of cards, account numbers and telephone
-- numbers.
pub mod Remainder
use agora_protocol.Base.{
  ℕ, ◌+◌, ◌-◌, ◌*◌, ◌%◌, Bool, true, false, ◌&&◌, ◌||◌, not, List, [], ◌∷◌, ◌++◌, Option, none,
  some, Text, codes, mem_text, starts_with, length, byte_len, utf8_width, retain, reverse, any,
  between, is_digit, is_lower, is_upper, is_whitespace, to_lowercase, ltb, leb, ◌==◌, if◌then◌else◌,
}
use agora_protocol.Guard.Regexes.{
  Captures, Engine, Pattern, call_reference, var_reference, attr_reference,
}

-- What a replacement function does: the source's `None`, its `Some`, or a panic.
pub data Replacement : Type 0 where
  unchanged panics : Replacement
  masked : Text → Replacement

unfoldable pub mask : Text → Text
mask k = codes "[REDACTED:" ++ (k ++ codes "]")

unfoldable pub whole : Captures → Text → Replacement
whole c k = masked (mask k)

unfoldable pub value : Captures → Text → Replacement
value c k = masked (c.first ++ (c.second ++ mask k))

unfoldable pub only_names : Engine → Text → Bool
only_names e v =
    e.is_match call_reference v
    || e.is_match var_reference v
    || e.is_match attr_reference v
    || mem_text (to_lowercase v) (codes "true" ∷ codes "false" ∷ codes "null" ∷ codes "none" ∷ [])

unfoldable pub secret_value : Engine → Captures → Text → Replacement
unfolding value
secret_value e c k = if only_names e c.third then unchanged else value c k

unfoldable pub url_cred : Captures → Text → Replacement
url_cred c k = masked (c.first ++ (mask k ++ codes "@"))

abbrev pub masked_if : Bool → Text → Replacement
masked_if true k = masked (mask k)
masked_if false k = unchanged

unfoldable pub email : Captures → Text → Replacement
email c k = masked_if (not (starts_with (codes "git@") c.matched)) k

-- `to_digit(36)`
unfoldable pub to_digit36 : ℕ → Option ℕ
to_digit36 c =
    if is_digit c
    then some (c - b'0')
    else if is_lower c
    then some (c - b'a' + 10)
    else if is_upper c
    then some (c - b'A' + 10)
    else none

unfoldable pub digits : Text → List ℕ
digits [] = []
digits (c ∷ s) = let rest = digits s in if is_digit c then (c - b'0') ∷ rest else rest

unfoldable pub phone : Captures → Text → Replacement
phone c k = masked_if (between 8 15 (length (digits c.matched))) k

-- The sum of the digits from the right, every second one doubled, and 9 less above 9.
unfoldable pub card_sum : Bool → List ℕ → ℕ
card_sum second [] = 0
card_sum second (x ∷ xs) =
    let rest = card_sum (not second) xs in
    (if second then (if ltb 9 (x * 2) then x * 2 - 9 else x * 2) else x) + rest

unfoldable pub differs : List ℕ → Bool
differs [] = false
differs (x ∷ xs) = any (λ y. not (y == x)) xs

unfoldable pub is_card : List ℕ → Bool
is_card d = between 13 19 (length d) && card_sum false (reverse d) % 10 == 0 && differs d

unfoldable pub card : Captures → Text → Replacement
unfolding is_card
card c k = masked_if (is_card (digits c.matched)) k

-- The loop over the rearranged characters; `none` at a character that is no digit or letter.
unfoldable pub iban_rem : ℕ → Text → Option ℕ
iban_rem rem [] = some rem
iban_rem rem (ch ∷ s) = elim (to_digit36 ch) [
  | none ↦ none
  | some v ↦
      if leb 10 v then iban_rem ((rem * 100 + v) % 97) s else iban_rem ((rem * 10 + v) % 97) s
]

unfoldable pub without_space : Text → Text
without_space s = retain (λ c. not (is_whitespace c)) s

abbrev pub is_one : Option ℕ → Bool
is_one none = false
is_one (some n) = n == 1

unfoldable pub with_first : ℕ → Option (Text × Text) → Option (Text × Text)
with_first c none = none
with_first c (some (a, b)) = some (c ∷ a, b)

-- `(&s[..n], &s[n..])`: the index counts bytes; `none` is the panic inside a character or behind the end.
unfoldable pub split_bytes : ℕ → Text → Option (Text × Text)
unfolding with_first
split_bytes n [] = if n == 0 then some ([], []) else none
split_bytes n (c ∷ s) =
    let rest = split_bytes (n - utf8_width c) s in
    if n == 0 then some ([], c ∷ s) else if ltb n (utf8_width c) then none else with_first c rest

unfoldable pub rearranged : Text → Option (Text × Text) → Replacement
rearranged k none = panics
rearranged k (some (a, b)) = masked_if (is_one (iban_rem 0 (b ++ a))) k

-- `iban` behind the removal of the white space.
unfoldable pub check_iban : Text → Text → Replacement
unfolding rearranged
check_iban s k =
    if not (between 15 34 (byte_len s)) then unchanged else rearranged k (split_bytes 4 s)

unfoldable pub iban : Captures → Text → Replacement
unfolding check_iban without_space
iban c k = check_iban (without_space c.matched) k
