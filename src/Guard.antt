-- ===== src/Guard.antt =====
-- guard.rs: the guard, which removes invisible characters and masks personal data and secrets.
pub mod Regexes
pub mod Checks
pub mod Clean
