-- ===== src/Node/Presence.antt =====
-- node.rs: what a node tells its peers of its agents.
use agora_protocol.Base.{[], ◌∷◌, ◌++◌, Option, none, some, Text, is_empty, if◌then◌else◌}
use agora_protocol.Base.Dict.{Dict, keys}
use agora_protocol.Config.Types.{Config}
use agora_protocol.Node.Types.{P2p, presence, Link, Session, State}

abouts : Dict Session → Dict Text
abouts [] = []
abouts ((k, s) ∷ m) = let rest = abouts m in elim s.about [ none ↦ rest | some a ↦ (k, a) ∷ rest ]

-- `user` is the user name that the environment gives.
unfoldable pub presence_of : Config → Option Text → State → P2p
unfolding abouts
presence_of cfg user s =
    presence (keys s.sessions) (if is_empty cfg.owner then user else some cfg.owner)
      (abouts s.sessions)

-- `l.tx.send(p)` on every link
unfoldable pub send_all : P2p → Dict Link → Dict Link
send_all p [] = []
send_all p ((k, l) ∷ m) = (k, record l { tx = l.tx ++ p ∷ [] }) ∷ send_all p m

unfoldable pub broadcast_presence : Config → Option Text → State → State
unfolding presence_of send_all
broadcast_presence cfg user s = record s { links = send_all (presence_of cfg user s) s.links }
