-- ===== src/Node/Known/Bounds.antt =====
-- node.rs: how much a peer can make a node remember of its agents.
use agora_protocol.Base.Dict.{Dict}
use agora_protocol.Node.Types.{Known}
