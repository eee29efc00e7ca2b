-- ===== src/Tests/Relay.antt =====
-- The relay at concrete inputs: two machines, an invitation, and a tunnel.
use agora_protocol.Node.Address.OneTime.{take_first}
use agora_protocol.Base.{List, ◌≡◌, refl, [], ◌∷◌, none, some, Text, Bytes, codes, arith, text_eq}
use agora_protocol.Base.Dict.{lookup, insert}
use agora_protocol.Config.Keys.{encode_key}
use agora_protocol.Relay.Roster.{Member, Invite, RelayFile, join}
use agora_protocol.Relay.Roster.Joining.{Change, invites, removes, change_all, join-spent}
use agora_protocol.Relay.Server.{
  Relay, empty_relay, start_listening, call, reserve, enqueue, take_call, Task, asking, waiting,
  joined, begin, reserve_slot, look_up, store, announce, answered, System, start_system,
  deliver_mail, move, take, listen, Reach, started, later, count_of, is_called,
}
use agora_protocol.Relay.Server.Limits.{HasSlots, Reach-HasSlots}
use agora_protocol.Relay.Server.Ends.{Reach-joined}
use agora_protocol.Node.Address.{ct_eq}
use agora_protocol.Tests.Values.{coding, zero_key}

abbrev laptop_key : Bytes
laptop_key = zero_key

abbrev pub server_key : Bytes
server_key =
    1 ∷ 0 ∷ 0 ∷ 0 ∷ 0 ∷ 0 ∷ 0 ∷ 0 ∷ 0 ∷ 0 ∷ 0 ∷ 0 ∷ 0 ∷ 0 ∷ 0 ∷ 0 ∷ 0 ∷ 0 ∷ 0 ∷ 0 ∷ 0 ∷ 0 ∷ 0 ∷ 0
    ∷ 0 ∷ 0 ∷ 0 ∷ 0 ∷ 0 ∷ 0 ∷ 0 ∷ 0 ∷ []

-- A hash that keeps the secret; it is shown on a secret of one byte.
abbrev hash : Bytes → Text
hash b = b

abbrev open_one : Invite
open_one = record { name = codes "server"; hash = 7 ∷ []; expires = 100 }

abbrev late_one : Invite
late_one = record { name = codes "old"; hash = 9 ∷ []; expires = 3 }

abbrev laptop_member : Member
laptop_member = record { name = codes "laptop"; key = encode_key coding laptop_key }

abbrev roster : RelayFile
roster = record {
  listen = codes "0.0.0.0:7400";
  member = laptop_member ∷ [];
  invite = late_one ∷ open_one ∷ [];
}

abbrev grown : RelayFile
grown = (join coding hash server_key (7 ∷ []) 50 roster).1

server_joins : join coding hash server_key (7 ∷ []) 50 roster ≡ (some (codes "server"), grown)
unfolding join take_first ct_eq
server_joins = refl

-- Another machine is invited, and the one that joined is removed.
abbrev changes : List (Change coding hash)
changes =
    invites server_key (codes "desk") (codes "10.0.0.2:7400") (8 ∷ []) 55
    ∷ removes (codes "server")
    ∷ []

join-spent_example :
    (join coding hash laptop_key (7 ∷ []) 60 (change_all coding hash changes grown)).0 ≡ none
unfolding text_eq ct_eq
join-spent_example =
    join-spent coding hash server_key (7 ∷ []) 50 roster grown (codes "server") changes laptop_key
      60 (omega arith, tt) ((omega arith, tt), (refl, tt), ((omega arith, tt), tt, tt)) server_joins
      (refl, (tt, tt))

abbrev token : Text
token = codes "5f"

-- The server listens; a task of the laptop calls it, and the server takes the call.
abbrev listening : System
listening = record start_system { relay = (start_listening server_key empty_relay).1 }

-- The relay when the token is stored.
abbrev called : Relay
called = (enqueue token server_key 0 (reserve laptop_key listening.relay).1).1

abbrev asking_task : Task
asking_task = record { key = laptop_key; to = server_key; phase = asking; mail = none }

abbrev waiting_task : Task
waiting_task = record asking_task { phase = waiting token }

abbrev told : Relay
told = call server_key 1 (token, laptop_key) called

-- The task when its call waits, and when the server has taken it.
reach_waiting : (s : System) × (Reach 1 s) × (s.relay ≡ told) × (s.task 0 ≡ waiting_task)
unfolding start_listening reserve enqueue count_of lookup insert text_eq
reach_waiting =
    let r1 : Reach 1 listening = later started (listen server_key) in
    let r2 = later r1 (move 0 (omega arith) (begin laptop_key server_key refl)) in
    let r3 = later r2 (move 0 (omega arith) (reserve_slot refl refl)) in
    let r4 = later r3 (move 0 (omega arith) (look_up 1 [] refl refl)) in
    let r5 = later r4 (move 0 (omega arith) (store 1 token refl refl)) in
    let r6 = later r5 (move 0 (omega arith) (announce 1 token refl)) in (_, r6, refl, refl)

reach_joined :
    (s : System) × (Reach 1 s)
    × ((s.task 0).phase ≡ joined server_key)
    × ((s.task 0).to ≡ server_key)
unfolding take_call deliver_mail lookup text_eq is_called reach_waiting call
reach_joined = (
  _,
  later (later reach_waiting.1 (take server_key token))
      (move 0 (omega arith) (answered token server_key refl refl)),
  refl,
  refl,
)

Reach-HasSlots_example : HasSlots 1 reach_joined.0
Reach-HasSlots_example = Reach-HasSlots 1 reach_joined.1

Reach-joined_example : server_key ≡ (reach_joined.0.task 0).to
Reach-joined_example = Reach-joined 1 reach_joined.1 0 server_key reach_joined.2
