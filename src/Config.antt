-- ===== src/Config.antt =====
-- config.rs: the configuration of a machine, names, keys and the lock of the node.
pub mod Types
pub mod Names
pub mod Keys
pub mod Peers
pub mod Lock
