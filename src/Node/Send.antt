-- ===== src/Node/Send.antt =====
-- node.rs: sending a message and waiting for its confirmation, and what a node keeps of the messages
-- over a restart.
pub mod Restart
pub mod Kept
pub mod Steps
pub mod Others
pub mod Later
use agora_protocol.Base.{
  ℕ, ◌+◌, ◌≡◌, Bool, true, false, ◌&&◌, ◌||◌, not, List, [], ◌∷◌, ◌++◌, Option, none, some, Text,
  codes, text_eq, byte_len, length, ltb, leb, if◌then◌else◌,
}
use agora_protocol.Base.Dict.{Dict, lookup, insert, remove, retain_entries}
use agora_protocol.Base.Result.{Result, ok, err}
use agora_protocol.Config.Types.{Config}
use agora_protocol.Config.Peers.{has_peer}
use agora_protocol.Node.Address.{valid_thread, split_addr}
use agora_protocol.Node.Types.{Msg, Event, P2p, msg, Link, Known, State, empty_state}
use agora_protocol.Node.Queues.{deliver, Delivery, DeliverError, queue_max}
use agora_protocol.Node.Links.{unacked_to, waiting}

pub data SendError : Type 0 where
  too_long invalid_thread invalid_address unknown_peer too_many_unconfirmed outbox_full : SendError
  undeliverable : DeliverError → SendError

-- A local event was delivered, or a message waits for the answer of its peer.
pub data Sent : Type 0 where
  locally : Delivery → Sent
  to_peer : Text → Sent

transmit : Msg → Text → Link → State → State
transmit m peer l s = record s {
  unacked = insert m.id (peer, m) s.unacked;
  links = insert peer (record l { tx = l.tx ++ msg m ∷ [] }) s.links;
  waiters = insert m.id peer s.waiters;
}

hold : Msg → Text → State → Result SendError Sent × State
hold m peer s =
    if leb queue_max (length (waiting (lookup peer s.outbox)))
    then (
      err outbox_full,
      record s { outbox = insert peer (waiting (lookup peer s.outbox)) s.outbox },
    )
    else (
      ok (to_peer peer),
      record s {
        outbox = insert peer (waiting (lookup peer s.outbox) ++ m ∷ []) s.outbox;
        waiters = insert m.id peer s.waiters;
      },
    )

-- The locked part of `send` for a message to a peer.
unfoldable pub post : Msg → Text → State → Result SendError Sent × State
unfolding transmit hold
post m peer s =
    if leb queue_max (length (unacked_to peer s.unacked))
    then (err too_many_unconfirmed, s)
    else elim (lookup peer s.links) [
      | some l ↦ (ok (to_peer peer), transmit m peer l s)
      | none ↦ hold m peer s
    ]

local : Result DeliverError Delivery × State → Result SendError Sent × State
local (ok d, s) = (ok (locally d), s)
local (err e, s) = (err (undeliverable e), s)

-- `send` up to the wait: `clean` is the guard's, `id` a random name, `ts` the time in seconds, `now`
-- the instant and `starts` whether the wake command can be started.
module _ (clean : Text → Text × List Text) (cfg : Config) (starts : Bool) where
  route :
      Text
      → Text
      → Option Text
      → Text
      → ℕ
      → ℕ
      → Text × Option Text
      → State
      → Result SendError Sent × State
  unfolding local
  route from text thread id ts now (agent, none) s = local (
      deliver cfg starts now
        (record {
          id = id;
          from = from;
          to = agent;
          thread = thread;
          body = (clean text).0;
          ts = ts;
          redacted = (clean text).1;
          file = none;
        })
        s)
  route from text thread id ts now (agent, some peer) s =
      if not (has_peer peer cfg)
      then (err unknown_peer, s)
      else post
          (record {
            id = id;
            from = from;
            to = agent;
            thread = thread;
            body = (clean text).0;
            ts = ts;
          })
          peer s

  unfoldable pub send :
      Text → Text → Text → Option Text → Text → ℕ → ℕ → State → Result SendError Sent × State
  unfolding route
  send from to text thread id ts now s =
      if ltb cfg.guard.max_bytes (byte_len text)
      then (err too_long, s)
      else if not (valid_thread thread)
      then (err invalid_thread, s)
      else elim (split_addr to) [
        | none ↦ (err invalid_address, s)
        | some a ↦ route from text thread id ts now a s
      ]

-- The state of `await_ack` after its time is over.
unfoldable pub give_up : Text → State → State
give_up id s = record s { waiters = remove id s.waiters }

-- The outbox that `persist` writes: the unconfirmed messages of a peer, then those that wait.
unfoldable pub save_unacked : Dict (Text × Msg) → Dict (List Msg) → Dict (List Msg)
save_unacked [] out = out
save_unacked ((id, (p, m)) ∷ rest) out =
    save_unacked rest (insert p (waiting (lookup p out) ++ m ∷ []) out)

unfoldable pub save_outbox : Dict (List Msg) → Dict (List Msg) → Dict (List Msg)
save_outbox [] out = out
save_outbox ((p, q) ∷ rest) out = save_outbox rest (insert p (waiting (lookup p out) ++ q) out)

pub record Saved : Type 0 where
  pub queues : Dict (List Event)
  pub outbox : Dict (List Msg)
  pub known : Dict (Dict Known)

unfoldable pub saved : State → Saved
saved s = record {
  queues = s.queues;
  outbox = save_outbox s.outbox (save_unacked s.unacked []);
  known = s.known;
}

-- The state with which `run` starts again.
unfoldable pub restore : Config → Saved → State
restore cfg d = record empty_state {
  queues = d.queues;
  outbox = retain_entries (λ p _. has_peer p cfg) d.outbox;
  known = retain_entries (λ p _. has_peer p cfg) d.known;
}
