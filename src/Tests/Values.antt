-- ===== src/Tests/Values.antt =====
-- The values that the examples share: a base 32 coding, keys, machines, events and messages.
use agora_protocol.Base.{
  ℕ, zero, suc, ◌+◌, ◌≡◌, refl, ap, ◌∙◌, true, false, [], ◌∷◌, Option, none, some, Text, Bytes,
  codes, All, arith, ◌==◌, if◌then◌else◌,
}
use agora_protocol.Config.Keys.{Base32, is_base32}
use agora_protocol.Config.Types.{Peer, Config, default_config}
use agora_protocol.Node.Types.{Event, Msg, State, empty_state}

-- A coding with two letters of the alphabet: a byte `n` is `n` times B, then A.
units : ℕ → Text → Text
units zero t = t
units (suc n) t = b'B' ∷ units n t

unfoldable pub unary : Bytes → Text
unfolding units
unary [] = []
unary (n ∷ b) = units n (b'A' ∷ unary b)

prepend : ℕ → Option Bytes → Option Bytes
prepend n none = none
prepend n (some b) = some (n ∷ b)

unfoldable pub read_unary : ℕ → Text → Option Bytes
unfolding prepend
read_unary n [] = some []
read_unary n (c ∷ s) =
    let more = read_unary (n + 1) s in
    let next = read_unary 0 s in if c == b'A' then prepend n next else more

read_unary-units :
    (k n : ℕ) (t : Text) → read_unary k (units n (b'A' ∷ t)) ≡ prepend (k + n) (read_unary 0 t)
unfolding read_unary units
read_unary-units k zero t = ap (λ m. prepend m (read_unary 0 t)) (omega arith)
read_unary-units k (suc n) t =
    read_unary-units (k + 1) n t ∙ ap (λ m. prepend m (read_unary 0 t)) (omega arith)

pub read_unary-unary : (b : Bytes) → read_unary 0 (unary b) ≡ some b
unfolding read_unary unary prepend
read_unary-unary [] = refl
read_unary-unary (n ∷ b) =
    read_unary-units 0 n (unary b)
    ∙ ap (prepend (0 + n)) (read_unary-unary b)
    ∙ ap (λ m. some (m ∷ b)) (omega arith)

units-is_base32 :
    (n : ℕ) (t : Text) → All (λ c. is_base32 c ≡ true) t → All (λ c. is_base32 c ≡ true) (units n t)
unfolding units
units-is_base32 zero t h = h
units-is_base32 (suc n) t h = (refl, units-is_base32 n t h)

pub unary-is_base32 : (b : Bytes) → All (λ c. is_base32 c ≡ true) (unary b)
unfolding unary
unary-is_base32 [] = tt
unary-is_base32 (n ∷ b) = units-is_base32 n _ (refl, unary-is_base32 b)

abbrev pub coding : Base32
coding = record {
  encode = unary;
  decode = read_unary 0;
  decode-encode = read_unary-unary;
  alphabet = unary-is_base32;
}

abbrev pub zero_key : Bytes
zero_key =
    0 ∷ 0 ∷ 0 ∷ 0 ∷ 0 ∷ 0 ∷ 0 ∷ 0 ∷ 0 ∷ 0 ∷ 0 ∷ 0 ∷ 0 ∷ 0 ∷ 0 ∷ 0 ∷ 0 ∷ 0 ∷ 0 ∷ 0 ∷ 0 ∷ 0 ∷ 0 ∷ 0
    ∷ 0 ∷ 0 ∷ 0 ∷ 0 ∷ 0 ∷ 0 ∷ 0 ∷ 0 ∷ []

abbrev pub laptop : Peer
laptop = record {
  name = codes "laptop";
  key = codes "aaaaaaaaaaaaaaaaaaaaaaaaaaaaaaaa";
  addr = none;
  files = true;
}

abbrev pub home : Config
home = record default_config { peer = laptop ∷ [] }

abbrev pub hello : Event
hello = record {
  id = codes "m1";
  from = codes "bob@laptop";
  to = codes "alice";
  thread = none;
  body = codes "hello";
  ts = 5;
  redacted = [];
  file = none;
}

abbrev pub to_anyone : Event
to_anyone = record hello { to = codes "*" }

abbrev pub note : Msg
note = record {
  id = codes "m2";
  from = codes "alice";
  to = codes "bob";
  thread = none;
  body = codes "done";
  ts = 7;
}

-- `alice` is there and one event waits for her; a note waits for the laptop, another is unconfirmed.
abbrev pub busy : State
busy = record empty_state {
  sessions = (codes "alice", record { sid = 1; permit = false; about = none }) ∷ [];
  queues = (codes "alice", hello ∷ []) ∷ [];
  outbox = (codes "laptop", note ∷ []) ∷ [];
  unacked = (codes "m1", (codes "laptop", record note { id = codes "m1" })) ∷ [];
}
