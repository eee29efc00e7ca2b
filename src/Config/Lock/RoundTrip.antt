-- ===== src/Config/Lock/RoundTrip.antt =====
-- config.rs: what one machine writes into the lock file, another reads.
use agora_protocol.Base.{
  ℕ, ◌-◌, ◌<◌, ◌≡◌, refl, true, false, ◌&&◌, not, [], ◌∷◌, ◌++◌, none, some, Text, codes, text_eq,
  split, is_whitespace, is_empty, is_digit, All, All-imp, All→all, lt→ltb, decimal, ltb, arith,
  if◌then◌else◌,
}
use agora_protocol.Base.Decimal.{digits_value-decimal, decimal-digits, decimal-nonempty}
use agora_protocol.Base.TextLaws.{split-append, split_id}
use agora_protocol.Config.Lock.{
  lock_fresh_secs, lock_text, words, unsigned, parse_u64, elsewhere, read_lock, node_elsewhere,
}

digit-not_whitespace : (c : ℕ) → is_digit c ≡ true → is_whitespace c ≡ false
unfolding is_whitespace
digit-not_whitespace c h = ground arith

unsigned_id : (s : Text) → All (λ c. is_digit c ≡ true) s → unsigned s ≡ s
unfolding unsigned
unsigned_id [] h = refl
unsigned_id (c ∷ s) h = ground (arith, h.0)

parse_u64-decimal : (n : ℕ) → n < 18446744073709551616 → parse_u64 (decimal n) ≡ some n
unfolding parse_u64
parse_u64-decimal n h = rw (unsigned_id (decimal n) (decimal-digits n)) (
    rw (decimal-nonempty n, All→all is_digit (decimal n) (decimal-digits n), digits_value-decimal n)
      (rw (lt→ltb n _ h) refl))

decimal-not_whitespace : (n : ℕ) → All (λ c. is_whitespace c ≡ false) (decimal n)
decimal-not_whitespace n = All-imp _ _ (decimal n) digit-not_whitespace (decimal-digits n)

space-is_whitespace : is_whitespace b' ' ≡ true
unfolding is_whitespace
space-is_whitespace = refl

newline-is_whitespace : is_whitespace 10 ≡ true
unfolding is_whitespace
newline-is_whitespace = refl

split-lock_text :
    (host : Text) (now pid : ℕ)
    → All (λ c. is_whitespace c ≡ false) host
    → split is_whitespace (lock_text host now pid) ≡ host ∷ decimal now ∷ decimal pid ∷ [] ∷ []
unfolding lock_text
split-lock_text host now pid h =
    rw
      (
        split-append is_whitespace host b' '
            (decimal now ++ (codes " " ++ (decimal pid ++ codes "\n"))) space-is_whitespace,
        split_id is_whitespace host h,
        split-append is_whitespace (decimal now) b' ' (decimal pid ++ codes "\n")
            space-is_whitespace,
        split_id is_whitespace (decimal now) (decimal-not_whitespace now),
        split-append is_whitespace (decimal pid) 10 [] newline-is_whitespace,
        split_id is_whitespace (decimal pid) (decimal-not_whitespace pid),
      )
      (unfold split in refl)

words-lock_text :
    (host : Text) (now pid : ℕ)
    → All (λ c. is_whitespace c ≡ false) host
    → is_empty host ≡ false
    → words (lock_text host now pid) ≡ host ∷ decimal now ∷ decimal pid ∷ []
unfolding words
words-lock_text host now pid h k =
    rw (split-lock_text host now pid h) (rw (k, decimal-nonempty now, decimal-nonempty pid) refl)

-- A machine that shares the home folder of a node sees the node's machine exactly while the last
-- heartbeat is less than 30 seconds old, and never sees itself. The machine's name is not empty and
-- has no white space, and the time is below 2^64 seconds.
pub node_elsewhere-lock_text :
    (host me : Text) (written pid now : ℕ)
    → All (λ c. is_whitespace c ≡ false) host
    → is_empty host ≡ false
    → written < 18446744073709551616
    → node_elsewhere me now (some (lock_text host written pid))
      ≡ (if not (text_eq host me) && ltb (now - written) lock_fresh_secs then some host else none)
unfolding node_elsewhere read_lock elsewhere
node_elsewhere-lock_text host me written pid now h k u =
    rw (words-lock_text host written pid h k) (rw (parse_u64-decimal written u) refl)
