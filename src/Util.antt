-- ===== src/Util.antt =====
-- src/util: stream identifiers.
pub mod Id
