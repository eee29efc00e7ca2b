-- ===== src/Node.antt =====
-- node.rs: the node of a machine.
pub mod Types
pub mod Presence
pub mod Queues
pub mod Admit
pub mod Links
pub mod Address
pub mod Send
pub mod Transfers
pub mod Trust
pub mod Admin
pub mod Pairing
pub mod Known
pub mod Inbound
pub mod Finish
pub mod SendFile
