-- ===== src/Files.antt =====
-- files.rs: screening of files. The kinds of content, safe names, paths that must not be sent, and
-- the decision whether a received file is kept.
pub mod Kinds
pub mod Names
pub mod Paths
pub mod Screen
