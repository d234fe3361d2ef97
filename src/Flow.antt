-- ===== src/Flow.antt =====
-- src/flow: credit windows, and the credit loop that two of them close.
pub mod Window
