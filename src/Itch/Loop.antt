-- ===== src/Itch/Loop.antt =====
-- The loop of `ItchParser::parse`: its rounds, memory safety and bounds, and whole packets.
pub mod Round
pub mod Progress
pub mod Safety
