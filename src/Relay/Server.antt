-- ===== src/Relay/Server.antt =====
-- relay.rs: the running relay: machines that listen, connections that wait to be taken, and open
-- tunnels. Each tunnel is made by one task (`connect`), which holds a lock for a moment at a time, so
-- the steps of several tasks interleave; a step is what happens under one lock, or one message. The
-- splicing of bytes (`splice`) and the sockets are left out.
pub mod Slots
pub mod Limits
pub mod Waiting
pub mod Ends
use agora_protocol.Base.{
  ℕ, zero, suc, ◌+◌, ◌-◌, ◌≤◌, ◌<◌, ◌≡◌, Bool, true, false, ◌&&◌, List, [], ◌∷◌, ◌++◌, Option, none,
  some, Text, Bytes, codes, text_eq, length, ltb, leb, ◌==◌, if◌then◌else◌,
}
use agora_protocol.Base.Dict.{Dict, lookup, insert, remove}
use agora_protocol.Base.Result.{Result, ok, err}
use agora_protocol.Config.Keys.{Base32, KeyError}
use agora_protocol.Relay.Roster.{RelayFile, member_name}

-- `TUNNELS_PER_MEMBER`
abbrev pub tunnels_per_member : ℕ
tunnels_per_member = 32

-- `PENDING_MAX`
abbrev pub pending_max : ℕ
pending_max = 256

-- `to` is the machine that is called, `task` the task that waits at the other end of `tx`.
pub record Pending : Type 0 where
  pub to : Bytes
  pub task : ℕ

-- A call for a machine that listens: the token and the caller.
abbrev pub Call : Type 0
Call = Text × Bytes

pub record Relay : Type 0 where
  pub listening : Dict (ℕ × List Call)
  pub pending : Dict Pending
  pub tunnels : Dict ℕ
  pub ids : ℕ

abbrev pub empty_relay : Relay
empty_relay = record { listening = []; pending = []; tunnels = []; ids = 1 }

unfoldable pub count_of : Bytes → Dict ℕ → ℕ
count_of key m = elim (lookup key m) [ none ↦ 0 | some c ↦ c ]

-- The start of `listen`: the id of the new listener. One that was there is dropped.
unfoldable pub start_listening : Bytes → Relay → ℕ × Relay
start_listening key s =
    (s.ids, record s { listening = insert key (s.ids, []) s.listening; ids = s.ids + 1 })

abbrev is_listener : ℕ → Option (ℕ × List Call) → Bool
is_listener id none = false
is_listener id (some (i, calls)) = i == id

-- The end of `listen`.
unfoldable pub stop_listening : Bytes → ℕ → Relay → Relay
stop_listening key id s =
    if is_listener id (lookup key s.listening)
    then record s { listening = remove key s.listening }
    else s

-- `ctl.send`, to the listener that was found: it is lost if that one has gone.
unfoldable pub call : Bytes → ℕ → Call → Relay → Relay
call to id c s = elim (lookup to s.listening) [
  | none ↦ s
  | some (i, calls) ↦
      if i == id then record s { listening = insert to (i, calls ++ c ∷ []) s.listening } else s
]

-- The block of `connect` that counts the tunnel: whether the member has too many.
unfoldable pub reserve : Bytes → Relay → Bool × Relay
reserve key s =
    let c = count_of key s.tunnels in
    if leb tunnels_per_member c
    then (true, record s { tunnels = insert key c s.tunnels })
    else (false, record s { tunnels = insert key (c + 1) s.tunnels })

-- `Slot::drop`
unfoldable pub free_slot : Bytes → Relay → Relay
free_slot key s = elim (lookup key s.tunnels) [
  | none ↦ s
  | some c ↦ record s { tunnels = insert key (c - 1) s.tunnels }
]

-- The block of `connect` that stores the token: whether the relay is busy.
unfoldable pub enqueue : Text → Bytes → ℕ → Relay → Bool × Relay
enqueue token to task s =
    if leb pending_max (length s.pending)
    then (true, s)
    else (false, record s { pending = insert token (record { to = to; task = task }) s.pending })

unfoldable pub forget : Text → Relay → Relay
forget token s = record s { pending = remove token s.pending }

unfoldable pub is_called : Bytes → Option Pending → Option Pending
is_called key none = none
is_called key (some p) = if text_eq p.to key then some p else none

-- `accept`: only the machine that was called takes the connection.
unfoldable pub take_call : Bytes → Text → Relay → Option Pending × Relay
take_call key token s = elim (is_called key (lookup token s.pending)) [
  | none ↦ (none, s)
  | some p ↦ (some p, forget token s)
]

-- The start of `connect`: the machine that is called, if it is a member.
pub data Asked : Type 0 where
  no_key not_member : Asked
  machine : Bytes → Text → Asked

unfoldable pub asked : Base32 → RelayFile → Result KeyError Bytes → Asked
asked base32 f (err e) = no_key
asked base32 f (ok to) = elim (member_name base32 f to) [
  | none ↦ not_member
  | some name ↦ machine to name
]

-- Where the task of a connection stands. A task that has not begun is `fresh`, and one that is
-- `refusing` writes its answer while it still has its slot.
pub data Phase : Type 0 where
  fresh asking reserved refusing finished : Phase
  found : ℕ → Phase
  queued : ℕ → Text → Phase
  waiting : Text → Phase
  joined : Bytes → Phase

-- The member that connects, the machine that it calls, and what `rx` holds: the machine that took the
-- call.
pub record Task : Type 0 where
  pub key : Bytes
  pub to : Bytes
  pub phase : Phase
  pub mail : Option Bytes

-- What one task does with the relay, from the tests of `asked` on. `finished` keeps the key and the machine of the task.
pub data Move (me : ℕ) (s : Relay) (t : Task) : Relay → Task → Type 0 where
  begin :
      (key to : Bytes)
      → t.phase ≡ fresh
      → Move me s t s (record { key = key; to = to; phase = asking; mail = none })
  reserve_slot :
      t.phase ≡ asking
      → (reserve t.key s).0 ≡ false
      → Move me s t (reserve t.key s).1 (record t { phase = reserved })
  refuse_full :
      t.phase ≡ asking
      → (reserve t.key s).0 ≡ true
      → Move me s t (reserve t.key s).1 (record t { phase = finished })
  look_up :
      (id : ℕ) (calls : List Call)
      → t.phase ≡ reserved
      → lookup t.to s.listening ≡ some (id, calls)
      → Move me s t s (record t { phase = found id })
  refuse_offline :
      t.phase ≡ reserved
      → lookup t.to s.listening ≡ none
      → Move me s t s (record t { phase = refusing })
  store :
      (id : ℕ) (token : Text)
      → t.phase ≡ found id
      → (enqueue token t.to me s).0 ≡ false
      → Move me s t (enqueue token t.to me s).1 (record t { phase = queued id token })
  refuse_busy :
      (id : ℕ) (token : Text)
      → t.phase ≡ found id
      → (enqueue token t.to me s).0 ≡ true
      → Move me s t s (record t { phase = refusing })
  announce :
      (id : ℕ) (token : Text)
      → t.phase ≡ queued id token
      → Move me s t (call t.to id (token, t.key) s) (record t { phase = waiting token })
  answered :
      (token : Text) (who : Bytes)
      → t.phase ≡ waiting token
      → t.mail ≡ some who
      → Move me s t (forget token s) (record t { phase = joined who })
  unanswered :
      (token : Text)
      → t.phase ≡ waiting token
      → Move me s t (forget token s) (record t { phase = refusing })
  release : t.phase ≡ refusing → Move me s t (free_slot t.key s) (record t { phase = finished })
  close :
      (who : Bytes)
      → t.phase ≡ joined who
      → Move me s t (free_slot t.key s) (record t { phase = finished })

pub record System : Type 0 where
  pub relay : Relay
  pub task : ℕ → Task

abbrev pub idle_task : Task
idle_task = record { key = []; to = []; phase = fresh; mail = none }

abbrev pub start_system : System
start_system = record { relay = empty_relay; task = λ i. idle_task }

-- The tasks with another one in the place of `i`.
abbrev pub set_task : ℕ → Task → (ℕ → Task) → ℕ → Task
set_task i t f j = if i == j then t else f j

-- A machine that took the call of a task: its key goes into the task's channel. (It does not, in
-- `take_lost`, if the answer to the machine could not be sent.) The key may stand there before the
-- source puts it there, since the answer is sent in between; the task looks at it at any later time.
unfoldable pub deliver_mail : Bytes → Option Pending → (ℕ → Task) → ℕ → Task
deliver_mail key none f = f
deliver_mail key (some p) f = set_task p.task (record (f p.task) { mail = some key }) f

-- One step of the relay with tasks `0` to `n - 1`.
pub data Step (n : ℕ) (s : System) : System → Type 0 where
  move :
      (i : ℕ) {r : Relay} {t : Task}
      → i < n
      → Move i s.relay (s.task i) r t
      → Step n s (record { relay = r; task = set_task i t s.task })
  take :
      (key : Bytes) (token : Text)
      → Step n s (record {
        relay = (take_call key token s.relay).1;
        task = deliver_mail key (take_call key token s.relay).0 s.task;
      })
  take_lost :
      (key : Bytes) (token : Text) → Step n s (record s { relay = (take_call key token s.relay).1 })
  listen : (key : Bytes) → Step n s (record s { relay = (start_listening key s.relay).1 })
  unlisten : (key : Bytes) (id : ℕ) → Step n s (record s { relay = stop_listening key id s.relay })

pub data Reach (n : ℕ) : System → Type 0 where
  started : Reach n start_system
  later : {s t : System} → Reach n s → Step n s t → Reach n t
