-- ===== src/Node/Inbound.antt =====
-- node.rs: a message that a peer sends: `inbound`, `alert` and the branch of `on_p2p` for it. `clean` is
-- the guard's function, where it does not panic.
use agora_protocol.Base.{
  ℕ, ◌-◌, ◌≤◌, ◌≡◌, refl, Bool, true, false, ◌&&◌, ◌||◌, not, inl, inr, List, [], ◌∷◌, ◌++◌, Option,
  none, some, Bool-cases, Text, mem_text, byte_len, length, ltb, arith, subst, sym, if◌then◌else◌,
}
use agora_protocol.Base.Dict.{Dict, lookup, insert}
use agora_protocol.Base.Result.{Result, ok, err}
use agora_protocol.Config.Types.{Config}
use agora_protocol.Config.Names.{valid_name}
use agora_protocol.Node.Address.{valid_thread, agent_or_any}
use agora_protocol.Node.Types.{Msg, Event, State}
use agora_protocol.Node.Admit.{AdmitError, admit, note_seen, seen_key}
use agora_protocol.Node.Admit.Seen.{admit_cases}
use agora_protocol.Node.Links.{reply}
use agora_protocol.Node.Queues.{Delivery, DeliverError, deliver, queued_bytes_max}
use agora_protocol.Node.Queues.Bounds.{IsBounded, deliver-IsBounded}

pub data InboundError : Type 0 where
  invalid_message message_too_large rate_limited : InboundError
  undeliverable : DeliverError → InboundError

-- What a peer is told of a message that was taken.
pub data Receipt : Type 0 where
  duplicate : Receipt
  received : Delivery → Receipt

abbrev recent : Option ℕ → ℕ → Bool
recent none now = false
recent (some t) now = ltb (now - t) 10000000000

abbrev shown : Dict ℕ → Dict ℕ
shown m = if ltb 1024 (length m) then [] else m

-- The state part of `alert`.
unfoldable pub alert : Config → ℕ → Text → State → State
alert cfg now from s =
    if not cfg.notify || recent (lookup from s.notified) now
    then s
    else record s { notified = insert from now (shown s.notified) }

unfoldable pub from_peer : (Text → Text × List Text) → Text → Msg → Event
from_peer clean peer m = record {
  id = m.id;
  from = m.from ++ b'@' ∷ peer;
  to = m.to;
  thread = m.thread;
  body = (clean m.body).0;
  ts = m.ts;
  redacted = (clean m.body).1;
  file = none;
}

unfoldable pub after_deliver :
    Config → ℕ → Text → Result DeliverError Delivery × State → Result InboundError Receipt × State
after_deliver cfg now from (ok d, s) = (ok (received d), alert cfg now from s)
after_deliver cfg now from (err e, s) = (err (undeliverable e), s)

-- `inbound` behind the admission.
unfoldable pub accept :
    (Text → Text × List Text)
    → Config
    → Bool
    → ℕ
    → Text
    → Msg
    → Result AdmitError Bool × State
    → Result InboundError Receipt × State
accept clean cfg starts now peer m (err e, s) = (err rate_limited, s)
accept clean cfg starts now peer m (ok false, s) = (ok duplicate, s)
accept clean cfg starts now peer m (ok true, s) =
    after_deliver cfg now (m.from ++ b'@' ∷ peer)
      (deliver cfg starts now (from_peer clean peer m) s)

unfoldable pub valid_msg : Msg → Bool
valid_msg m = valid_name m.from && agent_or_any m.to && valid_thread m.thread && valid_name m.id

unfoldable pub inbound :
    (Text → Text × List Text)
    → Config
    → Bool
    → ℕ
    → Text
    → Msg
    → State
    → Result InboundError Receipt × State
inbound clean cfg starts now peer m s =
    if not (valid_msg m)
    then (err invalid_message, s)
    else if ltb cfg.guard.max_bytes (byte_len m.body)
    then (err message_too_large, s)
    else accept clean cfg starts now peer m (admit cfg.guard.per_minute peer m.id now s)

-- The branch of `on_p2p`: the answer with the text of the receipt or the error.
unfoldable pub on_msg :
    (Text → Text × List Text)
    → (Result InboundError Receipt → Bool × Text)
    → Config
    → Bool
    → ℕ
    → Text
    → ℕ
    → Msg
    → State
    → State
on_msg clean answer cfg starts now peer link m s =
    let (r, t) = inbound clean cfg starts now peer m s in
    let (done, status) = answer r in reply peer link m.id done status t

alert-queues :
    (cfg : Config) (now : ℕ) (from : Text) (s : State) → (alert cfg now from s).queues ≡ s.queues
unfolding alert
alert-queues cfg now from s =
    elim (Bool-cases (not cfg.notify || recent (lookup from s.notified) now)) [
      | inl b ↦ rw b refl
      | inr b ↦ rw b refl
    ]

after_deliver-IsBounded :
    (cfg : Config) (now : ℕ) (from : Text) (r : Result DeliverError Delivery × State)
    → IsBounded r.1.queues
    → IsBounded (after_deliver cfg now from r).1.queues
unfolding after_deliver
after_deliver-IsBounded cfg now from (ok d, s) h =
    subst IsBounded (sym (alert-queues cfg now from s)) h
after_deliver-IsBounded cfg now from (err e, s) h = h

accept-IsBounded :
    (clean : Text → Text × List Text) (cfg : Config) (starts : Bool) (now : ℕ) (peer : Text)
    (m : Msg) (r : Result AdmitError Bool × State)
    → byte_len (clean m.body).0 ≤ queued_bytes_max
    → IsBounded r.1.queues
    → IsBounded (accept clean cfg starts now peer m r).1.queues
unfolding accept
accept-IsBounded clean cfg starts now peer m (err e, s) fits h = h
accept-IsBounded clean cfg starts now peer m (ok false, s) fits h = h
accept-IsBounded clean cfg starts now peer m (ok true, s) fits h =
    after_deliver-IsBounded cfg now _ _
      (deliver-IsBounded cfg starts now (from_peer clean peer m) s h (unfold from_peer in fits))

queues-note_seen : (key : Text) (s : State) → (note_seen key s).1.queues ≡ s.queues
unfolding note_seen
queues-note_seen key s = elim (Bool-cases (mem_text key s.seen_set)) [
  | inl b ↦ rw b refl
  | inr b ↦ rw b refl
]

queues-admit :
    (rate : ℕ) (peer id : Text) (now : ℕ) (s : State)
    → (admit rate peer id now s).1.queues ≡ s.queues
queues-admit rate peer id now s =
    admit_cases (λ r. r.1.queues ≡ s.queues) rate peer id now s (λ b. refl)
      (λ b. queues-note_seen (seen_key peer id) (record s { buckets = b }))

-- Whatever a peer sends as a message, the waiting queues stay within their bounds, if the guard makes
-- no text longer than 64 MiB of one that is as long as the configuration allows.
pub inbound-IsBounded :
    (clean : Text → Text × List Text) (cfg : Config) (starts : Bool) (now : ℕ) (peer : Text)
    (m : Msg) (s : State)
    → ((t : Text) → byte_len t ≤ cfg.guard.max_bytes → byte_len (clean t).0 ≤ queued_bytes_max)
    → IsBounded s.queues
    → IsBounded (inbound clean cfg starts now peer m s).1.queues
unfolding inbound
inbound-IsBounded clean cfg starts now peer m s grows h = elim (Bool-cases (not (valid_msg m))) [
  | inl a ↦ rw a h
  | inr a ↦ rw a (elim (Bool-cases (ltb cfg.guard.max_bytes (byte_len m.body))) [
    | inl b ↦ rw b h
    | inr b ↦ rw b (
        accept-IsBounded clean cfg starts now peer m _ (grows m.body (ground (arith, b)))
          (subst IsBounded (sym (queues-admit cfg.guard.per_minute peer m.id now s)) h))
  ])
]
