-- ===== src/Itch/Decode.antt =====
-- What one ITCH message says: `parse_message` and its handlers (protocols/itch50/itch50_parser.hpp)
-- against a table of big-endian numbers at offsets.
pub mod Fields
pub mod Table
pub mod Each
pub mod Message
