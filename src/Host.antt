-- ===== src/Host.antt =====
-- host/service/src: the host service.
pub mod Pin
pub mod Clipboard
pub mod Touch
pub mod Adapt
pub mod Transfers
pub mod Dirty
pub mod Control
pub mod Session
pub mod State
pub mod Trust
pub mod Handshake
pub mod Spake2Arm
pub mod PinArm
pub mod Pairing
pub mod Transport
pub mod Samples
