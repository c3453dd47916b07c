-- ===== src/Itch/Handlers/Reference.antt =====
-- The handlers of system events and stock directories (protocols/itch50/itch50_parser.hpp).
use winter_square.Common.{
  ℕ, Bool, true, false, List, [], ◌∷◌, Option, some, ltb, ◌==◌, if◌then◌else◌, ◌>>=◌,
}
use winter_square.Core.Types.{NormalizedMessage, MessageKind}
use winter_square.Itch.Bytes.{read_u16_be, read_u64_be}
use winter_square.Itch.Layout
use winter_square.Itch.Layout.{field, Field}
use winter_square.Itch.Handlers.Fields.{read_chars}

unfoldable pub parse_system_event :
    List ℕ → ℕ → NormalizedMessage → ℕ → Option (Bool × NormalizedMessage)
parse_system_event p length output local_timestamp =
    if ltb length Layout.system_event_size then some (false, output) else do
      time ← read_u64_be (field p Layout.system_event Field.timestamp)
      tracking ← read_u16_be (field p Layout.system_event Field.tracking_number)
      some (
        true,
        record output {
          type = MessageKind.system_event;
          timestamp = time;
          local_timestamp = local_timestamp;
          instrument_id = 0;
          sequence = tracking;
        },
      )

-- `stock_map_[k] = v`
abbrev pub StockMap : Type 0
StockMap = List (ℕ × List ℕ)

unfoldable pub assign : StockMap → ℕ → List ℕ → StockMap
assign [] k v = (k, v) ∷ []
assign ((j, w) ∷ m) k v = if j == k then (k, v) ∷ m else (j, w) ∷ assign m k v

unfoldable pub parse_stock_directory :
    StockMap → List ℕ → ℕ → NormalizedMessage → ℕ → Option (Bool × NormalizedMessage × StockMap)
parse_stock_directory stock_map p length output local_timestamp =
    if ltb length Layout.stock_directory_size then some (false, output, stock_map) else do
      locate ← read_u16_be (field p Layout.stock_directory Field.stock_locate)
      symbol ← read_chars (field p Layout.stock_directory Field.stock) 8
      time ← read_u64_be (field p Layout.stock_directory Field.timestamp)
      tracking ← read_u16_be (field p Layout.stock_directory Field.tracking_number)
      some (
        true,
        record output {
          type = MessageKind.system_event;
          timestamp = time;
          local_timestamp = local_timestamp;
          instrument_id = locate;
          sequence = tracking;
        },
        assign stock_map locate symbol,
      )
