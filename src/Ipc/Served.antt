-- ===== src/Ipc/Served.antt =====
-- node.rs: the loop of `serve_ipc`: what a session is pushed, what its requests count as read, and
-- which operation of the node a request is.
pub mod Pushed
use agora_protocol.Base.{
  ℕ, zero, suc, is_empty, Bool, true, false, ◌&&◌, ◌||◌, not, List, [], ◌∷◌, ◌++◌, Option, none,
  some, Text, codes, text_eq, mem_text, if◌then◌else◌,
}
use agora_protocol.Node.Types.{Event, State}
use agora_protocol.Node.Queues.{queue_of, ack}

-- `due` is what the pusher took and has still to send, `sent` is what it sent to the agent, and `acks` are
-- the ids that requests took to acknowledge them and that still wait for the lock of the state.
pub record Connection : Type 0 where
  pub node : State
  pub pushed : List Text
  pub due : List Event
  pub sent : List Event
  pub acks : List (List Text)

-- The filter of the pusher: an event is fresh if its id could be inserted.
unfoldable pub fresh : List Text → List Event → List Event × List Text
fresh pushed [] = ([], pushed)
fresh pushed (e ∷ q) =
    let known = fresh pushed q in
    let (es, p) = fresh (e.id ∷ pushed) q in if mem_text e.id pushed then known else (e ∷ es, p)

-- What the pusher does under the locks, when it has sent all that it took before.
unfoldable pub collect : Text → Connection → Connection
unfolding fresh
collect name c =
    let (es, p) = fresh c.pushed (queue_of name c.node.queues) in
    if is_empty c.due then record c { pushed = p; due = es } else c

-- Without the locks it sends one event after the other.
unfoldable pub send_next : List Event → Connection → Connection
send_next [] c = c
send_next (e ∷ es) c = record c { due = es; sent = c.sent ++ e ∷ [] }

abbrev pub is_send : Text → Bool
is_send op = text_eq op (codes "send") || text_eq op (codes "send_file")

-- What a request does to the pushed ids before it is carried out: `ack` takes them for a message that
-- the agent sends, and they are forgotten when it reads its inbox.
unfoldable pub take_note : Bool → Text → Connection → Connection
take_note push op c =
    let taken =
      if push && is_send op then record c { pushed = []; acks = c.acks ++ c.pushed ∷ [] } else c in
    if text_eq op (codes "inbox") then record taken { pushed = [] } else taken

-- The rest of `ack`, of the request that waits at a place.
unfoldable pub confirm : Text → ℕ → List (List Text) → Connection → Connection
unfolding ack
confirm name n [] c = record c { acks = [] }
confirm name zero (p ∷ ps) c = record c { node = ack name p c.node; acks = ps }
confirm name (suc n) (p ∷ ps) c = let d = confirm name n ps c in record d { acks = p ∷ d.acks }

-- The operations of the node.
pub data Route : Type 0 where
  to_send to_send_file to_inbox to_peers to_unread to_status to_invite to_join : Route
  to_relay_join to_relay_leave to_stop : Route
  to_admin : Text → Route

abbrev pub admin_ops : List Text
admin_ops =
    codes "trust"
    ∷ codes "untrust"
    ∷ codes "files"
    ∷ codes "owner"
    ∷ codes "rename"
    ∷ codes "reload"
    ∷ []

-- `none` is an operation that is not supported; `reads` says whether the mode is `pull` or `push`.
unfoldable pub route : Bool → Text → Option Route
route reads op =
    if text_eq op (codes "send")
    then some to_send
    else if text_eq op (codes "send_file")
    then some to_send_file
    else if text_eq op (codes "inbox") && reads
    then some to_inbox
    else if text_eq op (codes "peers")
    then some to_peers
    else if text_eq op (codes "unread")
    then some to_unread
    else if text_eq op (codes "status")
    then some to_status
    else if text_eq op (codes "invite")
    then some to_invite
    else if text_eq op (codes "join")
    then some to_join
    else if text_eq op (codes "relay_join")
    then some to_relay_join
    else if text_eq op (codes "relay_leave")
    then some to_relay_leave
    else if mem_text op admin_ops
    then some (to_admin op)
    else if text_eq op (codes "stop")
    then some to_stop
    else none

-- What happens on a connection, in any order: the pusher takes what is fresh, it sends the next event, a
-- request begins, an acknowledgement comes to its end, and anything else happens to the node.
pub data Happening : Type 0 where
  collects sends : Happening
  request : Text → Happening
  confirms : ℕ → Happening
  meanwhile : State → Happening

unfoldable pub happen : Text → Bool → Happening → Connection → Connection
unfolding collect send_next take_note confirm
happen name push collects c = if push then collect name c else c
happen name push sends c = send_next c.due c
happen name push (request op) c = take_note push op c
happen name push (confirms n) c = confirm name n c.acks c
happen name push (meanwhile s) c = record c { node = s }

unfoldable pub happen_all : Text → Bool → List Happening → Connection → Connection
unfolding happen
happen_all name push [] c = c
happen_all name push (h ∷ hs) c = happen_all name push hs (happen name push h c)
