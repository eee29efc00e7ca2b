-- ===== src/Node/Queues.antt =====
-- node.rs: the queues of local agents. `deliver` puts an event into them, `register` and
-- `unregister` open and close a session, `inbox` and `ack` take what was read out.
pub mod Bounds
pub mod Sessions
pub mod Order
pub mod Mailbox
pub mod Calls
pub mod Refinement
use agora_protocol.Base.{
  ℕ, zero, suc, ◌+◌, ◌-◌, ◌*◌, ◌≡◌, refl, Bool, true, false, ◌&&◌, ◌||◌, not, List, [], ◌∷◌, ◌++◌,
  map, Option, none, some, Text, codes, text_eq, mem_text, byte_len, decimal, any, length, retain,
  is_empty, ltb, leb, ◌==◌, if◌then◌else◌,
}
use agora_protocol.Base.Dict.{Dict, lookup, insert, remove, contains_key, keys, values}
use agora_protocol.Base.Result.{Result, ok, err}
use agora_protocol.Config.Types.{Config}
use agora_protocol.Node.Presence.{broadcast_presence}
use agora_protocol.Node.Types.{Event, Session, State, Notice, arrived, read}

abbrev pub queue_max : ℕ
queue_max = 1000

abbrev pub queues_max : ℕ
queues_max = 256

abbrev pub queued_bytes_max : ℕ
queued_bytes_max = 67108864

abbrev pub Queues : Type 0
Queues = Dict (List Event)

-- `several_agents` stands for the message that also lists the names.
pub data DeliverError : Type 0 where
  several_agents too_many_queues : DeliverError

-- The delivery statuses that `deliver` gives.
pub data Delivery : Type 0 where
  delivered held_waking held : Delivery

abbrev pub any_agent : Text
any_agent = codes "*"

unfoldable pub queue_bytes : List Event → ℕ
queue_bytes [] = 0
queue_bytes (e ∷ q) = byte_len e.body + queue_bytes q

unfoldable pub queued_bytes : Queues → ℕ
queued_bytes [] = 0
queued_bytes ((k, q) ∷ m) = queue_bytes q + queued_bytes m

later_max : Text → ℕ → Option (Text × ℕ) → Text × ℕ
later_max k n none = (k, n)
later_max k n (some (j, b)) = if ltb b n then (k, n) else (j, b)

-- `max_by_key`: the last of the queues with the most bytes.
unfoldable pub largest : Queues → Option (Text × ℕ)
unfolding later_max
largest [] = none
largest ((k, q) ∷ m) = some (later_max k (queue_bytes q) (largest m))

unfoldable pub front_of : Option (Text × ℕ) → Queues → Option (Text × Event × List Event)
front_of none m = none
front_of (some (k, b)) m = elim (lookup k m) [
  | none ↦ none
  | some [] ↦ none
  | some (e ∷ q) ↦ some (k, e, q)
]

-- The loop that drops the oldest events of the largest queue until the new one fits.
unfoldable pub make_room : ℕ → ℕ → ℕ → Queues → Queues
make_room zero need queued m = m
make_room (suc fuel) need queued m =
    if ltb queued_bytes_max (queued + need)
    then elim (front_of (largest m) m) [
      | none ↦ m
      | some (k, e, q) ↦ make_room fuel need (queued - byte_len e.body) (insert k q m)
    ]
    else m

unfoldable pub events : Queues → ℕ
events [] = 0
events ((k, q) ∷ m) = length q + events m

-- The names of those who get an event.
unfoldable pub targets : Text → Dict Session → Result DeliverError (List Text)
targets to sessions =
    if text_eq to any_agent
    then if ltb 1 (length (keys sessions))
      then err several_agents
      else ok (if is_empty (keys sessions) then any_agent ∷ [] else keys sessions)
    else ok (to ∷ [])

unfoldable pub queue_of : Text → Queues → List Event
queue_of k m = elim (lookup k m) [ none ↦ [] | some q ↦ q ]

pub queue_of-some :
    (m : Queues) (k : Text) (q : List Event) → lookup k m ≡ some q → queue_of k m ≡ q
unfolding queue_of
queue_of-some m k q h = rw (h, queue_of) refl

pub queue_of-none : (m : Queues) (k : Text) → lookup k m ≡ none → queue_of k m ≡ []
unfolding queue_of
queue_of-none m k h = rw (h, queue_of) refl

-- `if q.len() >= QUEUE_MAX { q.pop_front() }`
unfoldable pub drop_oldest : List Event → List Event
drop_oldest [] = []
drop_oldest (e ∷ q) = if leb queue_max (length (e ∷ q)) then q else e ∷ q

unfoldable pub no_room : Text → Queues → Bool
no_room t m = not (contains_key t m) && leb queues_max (length m)

about_of : Option Session → Option Text
about_of none = none
about_of (some s) = s.about

unfoldable pub wake_session : Text → Option Session → Dict Session → Dict Session
wake_session t none m = m
wake_session t (some s) m = insert t (record s { permit = true }) m

has_file : Event → Bool
has_file e = elim e.file [ none ↦ false | some f ↦ true ]

unfoldable pub readdress : Text → Event → Event
readdress to e = record e { to = to }

-- One turn of the loop over the targets.
unfoldable pub push_event : Event → Text → State → State
unfolding about_of has_file
push_event ev t s = record s {
  queues = insert t (drop_oldest (queue_of t s.queues) ++ readdress t ev ∷ []) s.queues;
  sessions = wake_session t (lookup t s.sessions) s.sessions;
  notices = s.notices ++ arrived t (about_of (lookup t s.sessions)) ev.from (has_file ev) ∷ [];
}

unfoldable pub push_all : Event → List Text → State → Bool → Result DeliverError Bool × State
push_all ev [] s live = (ok live, s)
push_all ev (t ∷ ts) s live =
    let rest = push_all ev ts (push_event ev t s) (live || contains_key t s.sessions) in
    if no_room t s.queues then (err too_many_queues, s) else rest

abbrev due : Option ℕ → ℕ → ℕ → Bool
due none now every = true
due (some t) now every = ltb every (now - t)

abbrev pub wake_every : ℕ
wake_every = 60000000000

-- Starting the wake command: `starts` is whether the system could start it.
unfoldable pub wake : List Text → Bool → ℕ → Text → State → Delivery × State
wake command starts now to s =
    if not (is_empty command)
      && not (text_eq to any_agent)
      && due (lookup to s.woken) now wake_every
      && due (lookup [] s.woken) now 5000000000
    then (
      if starts then held_waking else held,
      record s {
        woken = insert [] now (insert to now s.woken);
        started = if starts then s.started ++ to ∷ [] else s.started;
      },
    )
    else (held, s)

unfoldable pub finish :
    List Text
    → Bool
    → ℕ
    → Text
    → Result DeliverError Bool × State
    → Result DeliverError Delivery × State
finish command starts now to (err e, s) = (err e, s)
finish command starts now to (ok true, s) = (ok delivered, s)
finish command starts now to (ok false, s) = let (d, t) = wake command starts now to s in (ok d, t)

-- The queues after room was made for an event of `need` bytes.
unfoldable pub roomy : ℕ → Queues → Queues
roomy need m = make_room (suc (events m)) need (queued_bytes m) m

unfoldable pub put :
    Config → Bool → ℕ → Event → List Text → State → Result DeliverError Delivery × State
unfolding finish
put cfg starts now ev ts s =
    if any (λ t. no_room t s.queues) ts
    then (err too_many_queues, s)
    else finish cfg.wake starts now ev.to
        (push_all ev ts (record s { queues = roomy (byte_len ev.body * length ts) s.queues }) false)

unfoldable pub deliver : Config → Bool → ℕ → Event → State → Result DeliverError Delivery × State
deliver cfg starts now ev s = elim (targets ev.to s.sessions) [
  | err e ↦ (err e, s)
  | ok ts ↦ put cfg starts now ev ts s
]

-- The first name of `want`, `want-2`, `want-3`, … that no session has; the fuel is the number of
-- sessions and one more.
free_name : ℕ → Text → Text → ℕ → Dict Session → Text
free_name zero want name i m = name
free_name (suc fuel) want name i m =
    let next = free_name fuel want (want ++ codes "-" ++ decimal i) (suc i) m in
    if contains_key name m then next else name

unfoldable pub session_name : Text → Dict Session → Text
unfolding free_name
session_name want m = free_name (suc (length m)) want want 2 m

-- What waits for any agent goes to the new session.
unfoldable pub claim : Text → Option (List Event) → Queues → Queues
claim name none m = m
claim name (some []) m = remove any_agent m
claim name (some (e ∷ q)) m =
    let rest = remove any_agent m in
    insert name (queue_of name rest ++ map (readdress name) (e ∷ q)) rest

-- `sid` is the next value of the node's counter, `user` the user name of the environment.
unfoldable pub register : Config → Option Text → Text → Option Text → ℕ → State → Text × State
register cfg user want about sid s =
    let name = session_name want s.sessions in
    (
      name,
      broadcast_presence cfg user (record s {
        queues = claim name (lookup any_agent s.queues) s.queues;
        sessions = insert name (record { sid = sid; permit = true; about = about }) s.sessions;
      }),
    )

abbrev same_sid : ℕ → Option Session → Bool
same_sid sid none = false
same_sid sid (some s) = s.sid == sid

unfoldable pub unregister : Config → Option Text → Text → ℕ → State → State
unregister cfg user name sid s =
    if same_sid sid (lookup name s.sessions)
    then broadcast_presence cfg user (record s { sessions = remove name s.sessions })
    else s

-- One look of `inbox` into the queue of its agent.
unfoldable pub inbox : Text → State → List Event × State
inbox me s =
    let msgs = queue_of me s.queues in
    (
      msgs,
      record s {
        queues = remove me s.queues;
        notices = if is_empty msgs then s.notices else s.notices ++ read me ∷ [];
      },
    )

unfoldable pub ack_queue : Text → List Event → Queues → Queues
ack_queue me [] m = remove me m
ack_queue me (e ∷ q) m = insert me (e ∷ q) m

-- The events that were pushed to the agent count as read.
unfoldable pub ack : Text → List Text → State → State
unfolding ack_queue
ack me ids s = if is_empty ids then s else record s {
  queues = elim (lookup me s.queues) [
    | none ↦ s.queues
    | some q ↦ ack_queue me (retain (λ e. not (mem_text e.id ids)) q) s.queues
  ];
  notices = s.notices ++ read me ∷ [];
}
