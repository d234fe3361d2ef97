-- ===== src/Protocol.antt =====
-- src/protocol: frames, the 12-byte header and the codec.
pub mod Frame
pub mod Header
pub mod Codec
