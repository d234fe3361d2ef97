-- ===== src/Stream.antt =====
-- src/stream: one logical stream.
pub mod State
pub mod Recv
pub mod Channel
pub mod Inner
pub mod Life
