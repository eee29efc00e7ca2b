-- ===== src/Ipc/Calls.antt =====
-- ipc.rs: the requests of an agent's process and the answers of the node, which come in any order over
-- one connection. A value of JSON is an argument; the `answers` that a client records, the newest
-- first, are what the waiting calls got.
pub mod Once
use agora_protocol.Base.{
  ℕ, zero, suc, Bool, true, false, ◌&&◌, not, List, [], ◌∷◌, ◌++◌, Option, none, some, Text, codes,
  mem, retain, ◌==◌, if◌then◌else◌,
}
use agora_protocol.Base.Result.{Result, ok, err}

pub data CallError : Type 0 where
  closed : CallError
  failed : Text → CallError

pub record Client (V : Type 0) : Type 0 where
  pub rid : ℕ
  pub pending : List ℕ
  pub dead : Bool
  pub listens : Bool
  pub events : List V
  pub answers : List (ℕ × V)

-- A line of the node: an event, or an answer with its number, if it has one.
pub data Line (V : Type 0) : Type 0 where
  event : V → Line V
  answer : Option ℕ → V → Line V

pub data Next (V : Type 0) : Type 0 where
  calls ends : Next V
  reads : Line V → Next V

module _ {V : Type 0} where
  unfoldable pub start : Bool → Client V
  start listens = record {
    rid = 1;
    pending = [];
    dead = false;
    listens = listens;
    events = [];
    answers = [];
  }

  -- `call` up to its wait: the number that the request goes out with.
  unfoldable pub call : Client V → ℕ × Client V
  call c = (c.rid, record c { rid = suc c.rid; pending = c.rid ∷ c.pending })

  -- The task that reads.
  unfoldable pub receive : Line V → Client V → Client V
  receive (event v) c = record c { events = if c.listens then c.events ++ v ∷ [] else c.events }
  receive (answer none v) c = c
  receive (answer (some r) v) c =
      if mem r c.pending
      then record c { pending = retain (λ p. not (p == r)) c.pending; answers = (r, v) ∷ c.answers }
      else c

  -- The end of that task.
  unfoldable pub close : Client V → Client V
  close c = record c { dead = true; pending = [] }

  unfoldable pub step : Next V → Client V → Client V
  unfolding call receive close
  step calls c = (call c).1
  step (reads l) c = receive l c
  step ends c = close c

  unfoldable pub run : List (Next V) → Client V → Client V
  unfolding step
  run [] c = c
  run (n ∷ ns) c = run ns (step n c)

-- What `call` makes of the answer: `said_ok` is whether its `ok` is true, `reason` its `error`.
unfoldable pub outcome {ℓ} :
    {A : Type ℓ} → Option A → (A → Bool) → (A → Option Text) → Result CallError A
outcome none said_ok reason = err closed
outcome (some v) said_ok reason =
    if said_ok v
    then ok v
    else err (failed (elim (reason v) [ none ↦ codes "request failed" | some t ↦ t ]))
