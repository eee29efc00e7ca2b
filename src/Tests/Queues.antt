-- ===== src/Tests/Queues.antt =====
-- Deliveries, sessions, admission and confirmation at concrete inputs.
use agora_protocol.Base.{
  ℕ, zero, suc, ◌+◌, ◌≤◌, ◌<◌, ◌≡◌, ◌≢◌, refl, true, false, List, [], ◌∷◌, ◌++◌, none, Text, codes,
  mem_text, text_eq, byte_len, length, arith, is_alphanumeric,
}
use agora_protocol.Base.Dict.{lookup, contains_key, HasUniqueKeys, AllValues}
use agora_protocol.Base.Result.{ok, is_ok}
use agora_protocol.Node.Types.{Event, State, empty_state}
use agora_protocol.Node.Queues.{
  any_agent, queue_max, queued_bytes, queue_of, no_room, deliver, inbox, session_name, register,
  queue_bytes,
}
use agora_protocol.Node.Queues.Bounds.{IsBounded, deliver-IsBounded}
use agora_protocol.Node.Queues.Order.{Fits, deliver-inbox}
use agora_protocol.Node.Queues.Sessions.{session_name-free, register-over_limit}
use agora_protocol.Config.Names.{valid_name, is_name_char}
use agora_protocol.Node.Queues.Mailbox.{view}
use agora_protocol.Node.Queues.Calls.{
  Call, delivers, looks, acks, opens, perform_all, AllowsAll, AreNamed,
}
use agora_protocol.Node.Queues.Refinement.{perform_all-AllowsAll}
use agora_protocol.Node.Admit.{admit, take_token, refill, rate_of, note_seen}
use agora_protocol.Node.Admit.Seen.{Remembers, admit_all, admit-once}
use agora_protocol.Tests.Values.{home, hello, to_anyone, busy}

busy-IsBounded : IsBounded busy.queues
unfolding HasUniqueKeys contains_key queued_bytes lookup AllValues queue_bytes byte_len
busy-IsBounded = record {
  unique = (refl, tt);
  few = omega arith;
  short = (omega arith, tt);
  light = omega arith;
}

hello_bytes : byte_len hello.body ≤ 67108864
unfolding byte_len
hello_bytes = omega arith

deliver-IsBounded_example : IsBounded (deliver home false 0 hello busy).1.queues
deliver-IsBounded_example = deliver-IsBounded home false 0 hello busy busy-IsBounded hello_bytes

hello-Fits : Fits hello busy
unfolding text_eq no_room contains_key queued_bytes byte_len queue_of lookup queue_bytes
hello-Fits = record { named = refl; place = refl; total = omega arith; queue = omega arith }

deliver-inbox_example :
    (is_ok (deliver home false 0 hello busy).0 ≡ true)
    × ((inbox hello.to (deliver home false 0 hello busy).1).0
        ≡ queue_of hello.to busy.queues ++ hello ∷ [])
    × (queue_of hello.to (inbox hello.to (deliver home false 0 hello busy).1).1.queues ≡ [])
    × ((j : Text)
        → text_eq hello.to j ≡ false
        → queue_of j (inbox hello.to (deliver home false 0 hello busy).1).1.queues
          ≡ queue_of j busy.queues)
deliver-inbox_example = deliver-inbox home false 0 hello busy hello-Fits

session_name-free_example :
    contains_key (session_name (codes "alice") busy.sessions) busy.sessions ≡ false
session_name-free_example = session_name-free (codes "alice") busy.sessions

-- An event waits for any agent, and another for `bob`.
abbrev lobby : State
lobby = record empty_state { queues = (any_agent, to_anyone ∷ []) ∷ (codes "bob", hello ∷ []) ∷ [] }

abbrev opened : State → Text × State
opened s = register home none (codes "bob") none 4 s

lobby_opened : opened lobby ≡ (codes "bob", (opened lobby).1)
unfolding register session_name contains_key lookup
lobby_opened = refl

not_any : text_eq any_agent (codes "bob") ≡ false
unfolding text_eq
not_any = refl

copies : ℕ → List Event
copies zero = []
copies (suc n) = to_anyone ∷ copies n

-- 1000 events wait for any agent, and one for `bob`.
abbrev crowd : State
crowd = record empty_state { queues = (any_agent, copies 1000) ∷ (codes "bob", hello ∷ []) ∷ [] }

crowd_opened : opened crowd ≡ (codes "bob", (opened crowd).1)
unfolding register session_name contains_key lookup
crowd_opened = refl

crowd_over :
    queue_max
    < length (queue_of (codes "bob") crowd.queues) + length (queue_of any_agent crowd.queues)
unfolding queue_of lookup text_eq copies
crowd_over = omega arith

register-over_limit_example : queue_max < length (queue_of (codes "bob") (opened crowd).1.queues)
register-over_limit_example =
    register-over_limit home none (codes "bob") none 4 crowd (codes "bob") (opened crowd).1
      crowd_opened not_any crowd_over

empty-Remembers : Remembers empty_state
empty-Remembers = record { once = tt; same = λ k. refl; short = omega arith }

first_admitted : (admit 120 (codes "laptop") (codes "m1") 0 empty_state).0 ≡ ok true
unfolding admit take_token refill lookup rate_of note_seen mem_text
first_admitted = refl

admit-once_example :
    (admit 120 (codes "laptop") (codes "m1") 9 (
      admit_all 120
        ((codes "mill", codes "m1", 5) ∷ [])
        (admit 120 (codes "laptop") (codes "m1") 0 empty_state).1)).0
    ≢ ok true
admit-once_example =
    admit-once 120 (codes "laptop") (codes "m1") 0 9 ((codes "mill", codes "m1", 5) ∷ [])
      empty_state empty-Remembers first_admitted (omega arith)

-- An event for `bob` and one for any agent come in, `bob` opens a session, reads and acts.
abbrev day : List Call
day =
    delivers home false 0 hello
    ∷ delivers home false 0 to_anyone
    ∷ opens home none (codes "bob") none 4
    ∷ acks (codes "bob") (hello.id ∷ [])
    ∷ looks (codes "bob")
    ∷ []

day-AreNamed : AreNamed day
unfolding valid_name byte_len is_name_char is_alphanumeric
day-AreNamed = (refl, tt)

perform_all-AllowsAll_example :
    AllowsAll day
      (view empty_state)
      (perform_all day empty_state).0
      (view (perform_all day empty_state).1)
perform_all-AllowsAll_example = perform_all-AllowsAll day empty_state day-AreNamed
