-- ===== src/Tests/Ipc.antt =====
-- The greeting of an agent and the node, and the answers to calls.
use agora_protocol.Wire.{u32_bytes}
use agora_protocol.Node.Address.{ct_eq}
use agora_protocol.Base.{
  ℕ, ◌+◌, ◌%◌, ◌<◌, ◌≡◌, ◌⊎◌, refl, true, false, List, [], ◌∷◌, none, some, Text, Bytes, codes,
  length, mem, All, All-imp, byte_len, arith, text_eq, unwrap_or,
}
use agora_protocol.Base.Result.{ok}
use agora_protocol.Base.Utf8.{utf8}
use agora_protocol.Config.Keys.{is_base32}
use agora_protocol.Ipc.{Hex, key_of, mac}
use agora_protocol.Ipc.Proofs.{IsPart, Collision}
use agora_protocol.Ipc.Hello.{
  Hello, Greeting, Served, client_parts, node_parts, authentic, introduce, greet, settle,
}
use agora_protocol.Ipc.Hello.Bound.{word_IsPart, authentic-bound, settle-bound}
use agora_protocol.Ipc.Hello.Accepted.{introduce-settle}
use agora_protocol.Ipc.Calls.{Next, calls, reads, answer, event, start, run}
use agora_protocol.Ipc.Calls.Once.{IsOnce, numbers, run-IsOnce}
use agora_protocol.Ipc.Served.{
  Connection, Happening, collects, request, confirms, meanwhile, happen, happen_all, collect, fresh,
  take_note, confirm,
}
use agora_protocol.Ipc.Served.Pushed.{ids, opened, push_turn, happen_all-pushed}
use agora_protocol.Node.Queues.{queue_of, ack, ack_queue}
use agora_protocol.Node.Types.{Event, State}
use agora_protocol.Base.{mem_text, ◌++◌}
use agora_protocol.Base.Dict.{insert, lookup}
use agora_protocol.Base.Members.{IsIn}
use agora_protocol.Tests.Values.{
  hello, unary, read_unary, read_unary-unary, unary-is_base32, home, busy,
}

unary-ascii : (b : Bytes) → All (λ c. c < 128) (unary b)
unary-ascii b = All-imp _ _ (unary b) (λ c h. letter c h) (unary-is_base32 b)
  where
    letter : (c : ℕ) → is_base32 c ≡ true → c < 128
    letter c h = ground arith

abbrev letters : Hex
letters = record {
  encode = unary;
  decode = read_unary 0;
  decode-encode = read_unary-unary;
  ascii = unary-ascii;
}

-- A hash of one byte.
abbrev short_hash : Bytes → Bytes → Bytes
short_hash key m = (length key + length m) % 5 ∷ []

abbrev token : Text
token = codes "BABBA"

abbrev challenge : Text
challenge = codes "0123456789abcdef0123456789abcdef"

abbrev nonce : Text
nonce = codes "fedcba9876543210fedcba9876543210"

challenge-IsPart : IsPart challenge
unfolding utf8
challenge-IsPart = word_IsPart challenge refl refl

nonce-IsPart : IsPart nonce
unfolding utf8
nonce-IsPart = word_IsPart nonce refl refl

client-IsPart : IsPart (codes "client")
unfolding utf8
client-IsPart = word_IsPart (codes "client") refl refl

node-IsPart : IsPart (codes "node")
unfolding utf8
node-IsPart = word_IsPart (codes "node") refl refl

abbrev first_line : Hello
first_line = record {
  op = some (codes "hello");
  nonce = some nonce;
  proof = some (mac letters short_hash token (client_parts challenge nonce));
  agent = some (codes "alice");
  mode = some (codes "pull");
  root = none;
  about = none;
}

first_line-authentic : authentic letters short_hash token challenge first_line ≡ true
unfolding authentic mac utf8 byte_len text_eq unwrap_or ct_eq unary read_unary u32_bytes
first_line-authentic = refl

authentic-bound_example :
    (client_parts challenge nonce ≡ client_parts challenge nonce)
    ⊎ Collision (short_hash (key_of (letters.decode token)))
authentic-bound_example =
    authentic-bound letters short_hash token challenge nonce (client_parts challenge nonce)
      first_line (client-IsPart, (challenge-IsPart, (nonce-IsPart, tt))) challenge-IsPart
      nonce-IsPart refl refl first_line-authentic

abbrev greeted : Greeting
greeted = record {
  agent = some (codes "alice-2");
  proof = some (mac letters short_hash token (node_parts challenge nonce));
}

answer-settles :
    settle letters short_hash token challenge nonce (codes "alice") greeted ≡ ok (codes "alice-2")
unfolding settle mac utf8 ct_eq unary read_unary u32_bytes unwrap_or
answer-settles = refl

settle-bound_example :
    (node_parts challenge nonce ≡ node_parts challenge nonce)
    ⊎ Collision (short_hash (key_of (letters.decode token)))
settle-bound_example =
    settle-bound letters short_hash token challenge nonce (codes "alice") (codes "alice-2")
      (node_parts challenge nonce) greeted (node-IsPart, (challenge-IsPart, (nonce-IsPart, tt)))
      challenge-IsPart nonce-IsPart refl answer-settles

long_challenge : byte_len challenge ≡ 32
unfolding byte_len
long_challenge = refl

long_nonce : byte_len nonce ≡ 32
unfolding byte_len
long_nonce = refl

introduce-settle_example :
    (h : Hello) × (g : Greeting) × (v : Served) × (introduce letters short_hash token challenge
        nonce
        (codes "alice")
        (codes "pull")
        none
        none
      ≡ ok h)
    × ((greet letters short_hash token challenge (λ t. (t, [])) home none 3 h busy).0 ≡ some (g, v))
    × (settle letters short_hash token challenge nonce (codes "alice") g ≡ ok v.name)
introduce-settle_example =
    introduce-settle letters short_hash token (λ t. (t, [])) home none challenge nonce
      (codes "alice") (codes "pull") none none 3 busy long_challenge long_nonce

-- Two calls, an event, the answers in the other order, one of them twice, and one that nobody asked for.
abbrev traffic : List (Next Text)
traffic =
    calls
    ∷ calls
    ∷ reads (event (codes "msg"))
    ∷ reads (answer (some 2) (codes "b"))
    ∷ reads (answer (some 1) (codes "a"))
    ∷ reads (answer (some 2) (codes "b again"))
    ∷ reads (answer (some 9) (codes "c"))
    ∷ []

run-IsOnce_example :
    All (λ r. r < (run traffic (start true)).rid) (numbers (run traffic (start true)))
    × IsOnce (numbers (run traffic (start true)))
    × All
        (λ r. mem r (run traffic (start true)).pending ≡ false)
        (numbers (run traffic (start true)))
run-IsOnce_example = run-IsOnce traffic true

both_answered : (run traffic (start true)).answers ≡ (1, codes "a") ∷ (2, codes "b") ∷ []
unfolding run start mem
both_answered = refl

-- The pusher takes an event, another comes, and the agent sends a message before the pusher sends.
abbrev second : Event
second = record hello { id = codes "m3" }

abbrev later : State
later = record busy { queues = (codes "alice", hello ∷ second ∷ []) ∷ [] }

abbrev steps : List Happening
steps = collects ∷ meanwhile later ∷ request (codes "send") ∷ []

abbrev acted : Connection
acted = happen_all (codes "alice") true steps (opened busy)

-- The message counts as read then, though nothing was sent to the agent.
acknowledged_early :
    (queue_of (codes "alice") (happen (codes "alice") true (confirms 0) acted).node.queues
      ≡ second ∷ [])
    × (acted.sent ≡ [])
unfolding happen_all happen collect fresh take_note confirm ack ack_queue mem_text text_eq insert
    lookup queue_of
acknowledged_early = (refl, refl)

happen_all-pushed_example :
    All
      (λ e. mem_text e.id (ids (push_turn (codes "alice") acted).sent) ≡ true)
      (queue_of (codes "alice") acted.node.queues)
    × All
        (λ e.
          IsIn e
            (queue_of (codes "alice") (happen (codes "alice") true (confirms 0) acted).node.queues)
          ⊎ (mem_text e.id (ids (acted.sent ++ acted.due)) ≡ true))
        (queue_of (codes "alice") acted.node.queues)
happen_all-pushed_example = happen_all-pushed (codes "alice") steps busy 0
