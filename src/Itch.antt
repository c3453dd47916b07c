-- ===== src/Itch.antt =====
-- The ITCH 5.0 protocol: protocols/itch50.
pub mod Bytes
pub mod Layout
pub mod Messages
pub mod Handlers
pub mod Parser
pub mod Decode
pub mod Contract
pub mod Directory
pub mod Loop
pub mod Builder
pub mod Packet
pub mod Generator
