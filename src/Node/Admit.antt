-- ===== src/Node/Admit.antt =====
-- node.rs: `admit`, the rate limit and the memory of message ids. The level of a bucket is counted in
-- parts of a message: one message is 60000000000 of them, so the allowance grows by the rate in each
-- nanosecond. (The source counts messages in floating point.)
pub mod Rate
pub mod Seen
use agora_protocol.Base.{
  ℕ, ◌+◌, ◌-◌, ◌*◌, Bool, true, false, not, List, [], ◌∷◌, ◌++◌, Option, none, some, Text, codes,
  text_eq, mem_text, length, retain, ltb, if◌then◌else◌,
}
use Prim.Native.Nat.{min, max}
use agora_protocol.Base.Dict.{Dict, lookup, insert}
use agora_protocol.Base.Result.{Result, ok, err}
use agora_protocol.Node.Types.{State}

abbrev pub seen_max : ℕ
seen_max = 8192

abbrev pub message_cost : ℕ
message_cost = 60000000000

pub data AdmitError : Type 0 where
  rate_limited : AdmitError

abbrev pub Bucket : Type 0
Bucket = ℕ × ℕ

-- `per_minute.max(1)`
unfoldable pub rate_of : ℕ → ℕ
rate_of per_minute = max per_minute 1

bucket_or_full : ℕ → ℕ → Option Bucket → Bucket
bucket_or_full rate now none = (rate * message_cost, now)
bucket_or_full rate now (some b) = b

-- The level after the time that has passed, at most the rate.
unfoldable pub refill : ℕ → ℕ → Bucket → ℕ
refill rate now (level, at) = min (level + (now - at) * rate) (rate * message_cost)

-- Taking one message out of the bucket: whether it could, and the bucket after it.
unfoldable pub take_token : ℕ → ℕ → Bucket → Bool × Bucket
take_token rate now b =
    let level = refill rate now b in
    if ltb level message_cost then (false, (level, now)) else (true, (level - message_cost, now))

unfoldable pub seen_key : Text → Text → Text
seen_key peer id = peer ++ codes "/" ++ id

-- `seen.pop_front()` and `seen_set.remove(&old)`
forget : List Text → List Text → List Text × List Text
forget [] set = ([], set)
forget (old ∷ rest) set = (rest, retain (λ k. not (text_eq old k)) set)

-- The memory with one id more, and without the oldest if it is too long.
unfoldable pub remember : Text → List Text → List Text → List Text × List Text
unfolding forget
remember key seen set =
    if ltb seen_max (length (seen ++ key ∷ []))
    then forget (seen ++ key ∷ []) (key ∷ set)
    else (seen ++ key ∷ [], key ∷ set)

unfoldable pub note_seen : Text → State → Result AdmitError Bool × State
note_seen key s = if mem_text key s.seen_set then (ok false, s) else (
  ok true,
  record s {
    seen = (remember key s.seen s.seen_set).0;
    seen_set = (remember key s.seen s.seen_set).1;
  },
)

unfoldable pub admit : ℕ → Text → Text → ℕ → State → Result AdmitError Bool × State
unfolding bucket_or_full
admit per_minute peer id now s =
    let rate = rate_of per_minute in
    let (allowed, b) = take_token rate now (bucket_or_full rate now (lookup peer s.buckets)) in
    let s' = record s { buckets = insert peer b s.buckets } in
    if allowed then note_seen (seen_key peer id) s' else (err rate_limited, s')
