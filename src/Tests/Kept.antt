-- ===== src/Tests/Kept.antt =====
-- A message to a machine that is offline, which is sent when its link opens after a restart.
use agora_protocol.Config.Keys.{decode_key}
use agora_protocol.Config.Peers.{trusts, peer_named, peer_has_key, key_is, has_peer}
use agora_protocol.Base.{◌≡◌, refl, none, some, true, codes, text_eq, to_uppercase, trim}
use agora_protocol.Base.Dict.{lookup, AllValues, HasUniqueKeys}
use agora_protocol.Base.Members.{IsIn}
use agora_protocol.Base.Result.{ok}
use agora_protocol.Node.Types.{Msg, msg, Link, State, empty_state}
use agora_protocol.Node.Links.{open_link, waiting, unacked_to, yields_to}
use agora_protocol.Node.Send.{post, to_peer, restore, saved}
use agora_protocol.Node.Send.Kept.{HasOwnId}
use agora_protocol.Node.Send.Later.{now, after, sent, restarted, post-sent}
use agora_protocol.Tests.Values.{coding, zero_key, home, note, read_unary}

abbrev accepted : State
accepted = (post note (codes "laptop") empty_state).1

abbrev another : Msg
another = record note { id = codes "m3" }

abbrev again : State
again = restore home (saved (post another (codes "laptop") accepted).1)

abbrev linked : State
linked = elim (open_link coding home none zero_key (codes "laptop") zero_key true 1 9 again) [
  | none ↦ empty_state
  | some t ↦ t
]

note_accepted : post note (codes "laptop") empty_state ≡ (ok (to_peer (codes "laptop")), accepted)
unfolding post unacked_to lookup waiting
note_accepted = refl

link_opened :
    open_link coding home none zero_key (codes "laptop") zero_key true 1 9 again ≡ some linked
unfolding open_link trusts peer_named text_eq peer_has_key key_is decode_key read_unary to_uppercase
    trim yields_to lookup restore
link_opened = refl

alone : HasOwnId (codes "laptop") note empty_state.unacked empty_state.outbox
unfolding AllValues HasUniqueKeys
alone = record { noted = tt; queued = λ p. unfold waiting lookup in tt; unique = tt }

post-sent_example :
    (l : Link) × (lookup (codes "laptop") linked.links ≡ some l) × IsIn (msg note) l.tx
post-sent_example =
    post-sent (codes "laptop") note empty_state accepted again linked (to_peer (codes "laptop"))
      coding home none zero_key zero_key true 1 9 alone note_accepted
      (after (after now (sent another (codes "laptop") (unfold text_eq in refl)))
        (restarted home (unfold has_peer text_eq in refl)))
      link_opened
