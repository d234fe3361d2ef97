-- ===== src/Session.antt =====
-- src/session: one connection with its streams. A session is one record; a task's turn between two
-- waits is one function on it.
pub mod Manager
pub mod Inner
pub mod Announce
pub mod Carried
pub mod Reader
pub mod Api
pub mod Writer
pub mod Keepalive
pub mod Machine
pub mod Transfer
