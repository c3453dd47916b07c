-- ===== src/Itch/Packet.antt =====
-- Whole packets: what `parse` makes of a packet that frames given messages.
pub mod Local
pub mod Frames
pub mod Sent
pub mod Built
pub mod RoundTrip
pub mod Feed
pub mod EndToEnd
