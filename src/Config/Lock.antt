-- ===== src/Config/Lock.antt =====
-- config.rs: the lock file that shows which machine runs the node of a shared home folder. Its text
-- is the machine's name, the time of the last heartbeat in seconds and the process number.
pub mod RoundTrip
use agora_protocol.Base.{
  ℕ, zero, suc, ◌-◌, ◌≡◌, refl, Bool, true, false, ◌&&◌, ◌||◌, not, List, [], ◌∷◌, ◌++◌, Option,
  none, some, Text, codes, text_eq, split, is_whitespace, is_empty, is_digit, all, retain, decimal,
  ltb, ◌==◌, if◌then◌else◌,
}
use agora_protocol.Base.Decimal.{digits_value}

abbrev pub lock_fresh_secs : ℕ
lock_fresh_secs = 30

-- What `write_lock` writes.
unfoldable pub lock_text : Text → ℕ → ℕ → Text
lock_text host now pid =
    host ++ (codes " " ++ (decimal now ++ (codes " " ++ (decimal pid ++ codes "\n"))))

-- `split_whitespace()`
unfoldable pub words : Text → List Text
words s = retain (λ w. not (is_empty w)) (split is_whitespace s)

unfoldable pub unsigned : Text → Text
unsigned [] = []
unsigned (c ∷ s) = if c == b'+' then s else c ∷ s

-- `parse::<u64>()`: an optional plus sign, then digits, and no overflow.
unfoldable pub parse_u64 : Text → Option ℕ
unfolding unsigned
parse_u64 s =
    if not (is_empty (unsigned s))
      && all is_digit (unsigned s)
      && ltb (digits_value 0 (unsigned s)) 18446744073709551616
    then some (digits_value 0 (unsigned s))
    else none

-- The host, if it is another one and its heartbeat is fresh.
unfoldable pub elsewhere : Text → ℕ → Text → Option ℕ → Option Text
elsewhere me now host none = none
elsewhere me now host (some ts) =
    if not (text_eq host me) && ltb (now - ts) lock_fresh_secs then some host else none

unfoldable pub read_lock : Text → ℕ → List Text → Option Text
unfolding elsewhere
read_lock me now (host ∷ ts ∷ rest) = elsewhere me now host (parse_u64 ts)
read_lock me now (host ∷ []) = none
read_lock me now [] = none

-- `node_elsewhere`, given the content of the lock file if it can be read.
unfoldable pub node_elsewhere : Text → ℕ → Option Text → Option Text
node_elsewhere me now none = none
node_elsewhere me now (some s) = read_lock me now (words s)
