-- ===== src/Itch/Contract.antt =====
-- `ItchParser` (protocols/itch50/itch50_parser.hpp) as the engine's parser.
use winter_square.Core.Parser.{IsParser}
use winter_square.Itch.Parser.{itch_parser}
use winter_square.Itch.Loop.Safety.{parse-IsSafe}

-- `ItchParser` keeps to the contract that the engine relies on: on a view of bytes whose length is
-- that of its buffer at most, and with `max_messages` slots, it returns, counts no more messages
-- than that, and keeps the array's length.
pub itch_parser-IsParser : IsParser itch_parser
itch_parser-IsParser = record {
  safe = λ s view p output max_messages content bytes within room.
      let (r, e, safe) = parse-IsSafe s view p output max_messages content bytes within room in
      (r, e, safe.counted, safe.same_length);
}
