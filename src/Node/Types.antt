-- ===== src/Node/Types.antt =====
-- node.rs: messages, events and the state of a node. An `Instant` is a number of nanoseconds and a
-- `SystemTime` a number of seconds. A channel is the list of what was put into it, a `Notify` its
-- stored permit, and the answer of a waiter is kept in `answers`. The fields from `answers` and
-- `notices` on that `State` of the source lacks record effects: `notices` for watchers, the agents
-- for which the wake command was `started`, the numbers of links told to end (`closing`), and the
-- files that exist in the folder of `partial` transfers.
use agora_protocol.Base.{ℕ, Bool, false, List, [], Option, Text, Bytes}
use agora_protocol.Base.Dict.{Dict}
use agora_protocol.Files.Kinds.{Kind}

pub record Msg : Type 0 where
  pub id : Text
  pub from : Text
  pub to : Text
  pub thread : Option Text
  pub body : Text
  pub ts : ℕ

pub record FileMeta : Type 0 where
  pub id : Text
  pub from : Text
  pub to : Text
  pub name : Text
  pub size : ℕ
  pub hash : Text
  pub note : Option Text
  pub ts : ℕ

-- The value that `file_finish` stores in `Event::file`.
pub record FileNote : Type 0 where
  pub name : Text
  pub path : Text
  pub bytes : ℕ
  pub kind : Kind
  pub scanned_by : Option Text

pub record Event : Type 0 where
  pub id : Text
  pub from : Text
  pub to : Text
  pub thread : Option Text
  pub body : Text
  pub ts : ℕ
  pub redacted : List Text
  pub file : Option FileNote

pub record Known : Type 0 where
  pub about : Option Text
  pub last_seen : ℕ

pub data P2p : Type 0 where
  msg : Msg → P2p
  ack : Text → Bool → Text → P2p
  presence : List Text → Option Text → Dict Text → P2p
  ping : P2p
  join : Text → P2p
  joined : P2p
  file_start : FileMeta → P2p
  file_chunk : Text → ℕ → Text → P2p
  file_end : Text → P2p

pub record Link : Type 0 where
  pub tx : List P2p
  pub acks : ℕ
  pub id : ℕ
  pub key : Bytes
  pub i_initiated : Bool
  pub since : ℕ

pub record Session : Type 0 where
  pub sid : ℕ
  pub permit : Bool
  pub about : Option Text

pub record Remote : Type 0 where
  pub agents : List Text
  pub about : Dict Text
  pub owner : Option Text

pub record Invite : Type 0 where
  pub secret : Bytes
  pub name : Text
  pub files : Bool
  pub expires : ℕ

-- `written` is the content of `file`, which is also what `hasher` has read.
pub record Incoming : Type 0 where
  pub meta : FileMeta
  pub peer : Text
  pub link : ℕ
  pub path : Text
  pub written : Bytes
  pub got : ℕ
  pub seq : ℕ

-- Notices for watchers: never message text.
pub data Notice : Type 0 where
  arrived : Text → Option Text → Text → Bool → Notice
  read : Text → Notice

pub record State : Type 0 where
  pub sessions : Dict Session
  pub queues : Dict (List Event)
  pub links : Dict Link
  pub outbox : Dict (List Msg)
  pub unacked : Dict (Text × Msg)
  pub waiters : Dict Text
  pub answers : Dict (Bool × Text)
  pub remote : Dict Remote
  pub known : Dict (Dict Known)
  pub notified : Dict ℕ
  pub seen : List Text
  pub seen_set : List Text
  pub buckets : Dict (ℕ × ℕ)
  pub woken : Dict ℕ
  pub dialing : List Text
  pub relay_running : Bool
  pub relay_up : Bool
  pub invites : List Invite
  pub refused : List (Text × Text × ℕ)
  pub incoming : Dict Incoming
  pub notices : List Notice
  pub started : List Text
  pub closing : List ℕ
  pub partial : List Text

-- `State::default()`
abbrev pub empty_state : State
empty_state = record {
  sessions = [];
  queues = [];
  links = [];
  outbox = [];
  unacked = [];
  waiters = [];
  answers = [];
  remote = [];
  known = [];
  notified = [];
  seen = [];
  seen_set = [];
  buckets = [];
  woken = [];
  dialing = [];
  relay_running = false;
  relay_up = false;
  invites = [];
  refused = [];
  incoming = [];
  notices = [];
  started = [];
  closing = [];
  partial = [];
}
