-- ===== src/Tests/Links.antt =====
-- A link, an answer and a restart at concrete inputs.
use agora_protocol.Config.Keys.{decode_key}
use agora_protocol.Base.{
  false, ◌≡◌, refl, true, ◌&&◌, ◌++◌, Option, none, some, Text, codes, text_eq, if◌then◌else◌,
  to_uppercase, trim,
}
use agora_protocol.Base.Dict.{lookup, HasUniqueKeys, contains_key}
use agora_protocol.Config.Peers.{has_peer, trusts, peer_named, peer_has_key, key_is}
use agora_protocol.Node.Types.{Link, State, empty_state}
use agora_protocol.Node.Links.{
  open_link, on_ack, belongs, waits_for, unacked_to, waiting, yields_to,
}
use agora_protocol.Node.Links.Pending.{Taken, open_link-Taken, on_ack_lem}
use agora_protocol.Node.Trust.{apply, apply-trusted}
use agora_protocol.Node.Send.{saved, restore}
use agora_protocol.Node.Send.Restart.{restore-saved}
use agora_protocol.Tests.Values.{coding, zero_key, home, busy, read_unary}

abbrev with_link : Option State
with_link = open_link coding home none zero_key (codes "laptop") zero_key true 1 9 busy

abbrev state_or_empty : Option State → State
state_or_empty none = empty_state
state_or_empty (some s) = s

busy_opened : with_link ≡ some (state_or_empty with_link)
unfolding open_link trusts peer_named text_eq peer_has_key key_is decode_key read_unary to_uppercase
    trim yields_to lookup
busy_opened = refl

open_link-Taken_example :
    Taken coding home none (codes "laptop") zero_key busy (state_or_empty with_link)
open_link-Taken_example =
    open_link-Taken coding home none zero_key (codes "laptop") zero_key true 1 9 busy
      (state_or_empty with_link) busy_opened

abbrev answered : State
answered = on_ack (λ t. t) (codes "laptop") (codes "m1") true (codes "delivered") busy

on_ack_lem_example :
    ((j : Text)
      → lookup j answered.unacked ≡ (
          if text_eq (codes "m1") j && belongs (codes "laptop") (lookup (codes "m1") busy.unacked)
          then none
          else lookup j busy.unacked))
    × ((j : Text)
        → lookup j answered.waiters ≡ (
            if text_eq (codes "m1") j
              && waits_for (codes "laptop") (lookup (codes "m1") busy.waiters)
            then none
            else lookup j busy.waiters))
on_ack_lem_example = on_ack_lem (λ t. t) (codes "laptop") (codes "m1") true (codes "delivered") busy

busy-HasUniqueKeys : HasUniqueKeys busy.outbox
unfolding HasUniqueKeys contains_key lookup
busy-HasUniqueKeys = (refl, tt)

laptop_trusted : has_peer (codes "laptop") home ≡ true
unfolding has_peer text_eq
laptop_trusted = refl

restore-saved_example :
    (waiting (lookup (codes "laptop") (restore home (saved busy)).outbox)
      ≡ unacked_to (codes "laptop") busy.unacked ++ waiting (lookup (codes "laptop") busy.outbox))
    × ((restore home (saved busy)).queues ≡ busy.queues)
restore-saved_example = restore-saved home busy (codes "laptop") busy-HasUniqueKeys laptop_trusted

abbrev applied : State
applied = apply coding home none busy

apply-trusted_example :
    ((l : Link)
      → lookup (codes "laptop") applied.links ≡ some l
      → trusts coding (codes "laptop") l.key home ≡ true)
    × (has_peer (codes "laptop") home ≡ false → lookup (codes "laptop") applied.outbox ≡ none)
    × (applied.unacked ≡ busy.unacked)
apply-trusted_example = apply-trusted coding home none busy (codes "laptop")
