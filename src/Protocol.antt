-- ===== src/Protocol.antt =====
-- shared/protocol/src: the wire format that hosts and viewers share.
pub mod Bytes
pub mod Error
pub mod Envelope
pub mod Media
pub mod Crypto
pub mod Spake2
pub mod Messages
pub mod Samples
pub mod Files
