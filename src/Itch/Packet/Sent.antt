-- ===== src/Itch/Packet/Sent.antt =====
-- The messages of the generator (examples/itch_generator.cpp) as values.
use winter_square.Common.{ℕ, ◌^◌, ◌<◌, ◌≡◌, List, length, All}
use winter_square.Common.Int.{pos}
use winter_square.Core.Types.{NormalizedMessage, MessageKind}
use winter_square.Itch.Bytes.{IsByte}
use winter_square.Itch.Handlers.{side_of}
use winter_square.Itch.Builder.{build_add_order, build_order_executed, build_trade}

-- A message to send, by the arguments of its `build_…`.
pub data Sent : Type 0 where
  add_order : (locate tracking time order side shares price : ℕ) → List ℕ → Sent
  executed : (locate tracking time order shares match_number : ℕ) → Sent
  traded : (locate tracking time order side shares price match_number : ℕ) → List ℕ → Sent

abbrev pub bytes_of : Sent → List ℕ
bytes_of (add_order locate tracking time order side shares price stock) =
    build_add_order locate tracking time order side shares stock price
bytes_of (executed locate tracking time order shares match_number) =
    build_order_executed locate tracking time order shares match_number
bytes_of (traded locate tracking time order side shares price match_number stock) =
    build_trade locate tracking time order side shares stock price match_number

-- The arguments fit their C++ types.
abbrev pub InRange : Sent → Type 0
InRange (add_order locate tracking time order side shares price stock) =
    (locate < 2 ^ 16)
    × (tracking < 2 ^ 16)
    × (time < 2 ^ 64)
    × (order < 2 ^ 64)
    × (side < 256)
    × (shares < 2 ^ 32)
    × (price < 2 ^ 32)
    × All IsByte stock
    × (length stock ≡ 8)
InRange (executed locate tracking time order shares match_number) =
    (locate < 2 ^ 16)
    × (tracking < 2 ^ 16)
    × (time < 2 ^ 64)
    × (order < 2 ^ 64)
    × (shares < 2 ^ 32)
    × (match_number < 2 ^ 64)
InRange (traded locate tracking time order side shares price match_number stock) =
    (locate < 2 ^ 16)
    × (tracking < 2 ^ 16)
    × (time < 2 ^ 64)
    × (order < 2 ^ 64)
    × (side < 256)
    × (shares < 2 ^ 32)
    × (price < 2 ^ 32)
    × (match_number < 2 ^ 64)
    × All IsByte stock
    × (length stock ≡ 8)

-- What the parser is to write for it over `output`.
abbrev pub expected : Sent → NormalizedMessage → ℕ → NormalizedMessage
expected (add_order locate tracking time order side shares price stock) output now = record output {
  type = MessageKind.order_add;
  instrument_id = locate;
  order_id = order;
  price = pos price;
  quantity = shares;
  side = side_of side;
  timestamp = time;
  local_timestamp = now;
  sequence = tracking;
}
expected (executed locate tracking time order shares match_number) output now = record output {
  type = MessageKind.order_execute;
  instrument_id = locate;
  order_id = order;
  quantity = shares;
  timestamp = time;
  local_timestamp = now;
  sequence = tracking;
}
expected (traded locate tracking time order side shares price match_number stock) output now =
    record output {
      type = MessageKind.trade;
      instrument_id = locate;
      order_id = order;
      price = pos price;
      quantity = shares;
      side = side_of side;
      timestamp = time;
      local_timestamp = now;
      sequence = tracking;
    }
