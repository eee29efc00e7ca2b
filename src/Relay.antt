-- ===== src/Relay.antt =====
-- relay.rs: the relay, which connects machines that cannot reach each other.
pub mod Roster
pub mod Server
