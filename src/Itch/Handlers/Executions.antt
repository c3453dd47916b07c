-- ===== src/Itch/Handlers/Executions.antt =====
-- The handlers of executions and trades (protocols/itch50/itch50_parser.hpp).
use winter_square.Common.{ℕ, Bool, true, false, List, Option, some, ltb, if◌then◌else◌, ◌>>=◌}
use winter_square.Common.Int.{pos}
use winter_square.Core.Types.{NormalizedMessage, MessageKind}
use winter_square.Itch.Bytes.{read_u16_be, read_u32_be, read_u64_be}
use winter_square.Itch.Layout
use winter_square.Itch.Layout.{field, Field}
use winter_square.Itch.Handlers.Fields.{read_u8, side_of}

unfoldable pub parse_order_executed :
    List ℕ → ℕ → NormalizedMessage → ℕ → Option (Bool × NormalizedMessage)
parse_order_executed p length output local_timestamp =
    if ltb length Layout.order_executed_size then some (false, output) else do
      locate ← read_u16_be (field p Layout.order_executed Field.stock_locate)
      order ← read_u64_be (field p Layout.order_executed Field.order_reference_number)
      time ← read_u64_be (field p Layout.order_executed Field.timestamp)
      amount ← read_u32_be (field p Layout.order_executed Field.executed_shares)
      tracking ← read_u16_be (field p Layout.order_executed Field.tracking_number)
      some (
        true,
        record output {
          type = MessageKind.order_execute;
          instrument_id = locate;
          order_id = order;
          timestamp = time;
          local_timestamp = local_timestamp;
          quantity = amount;
          sequence = tracking;
        },
      )

unfoldable pub parse_order_executed_with_price :
    List ℕ → ℕ → NormalizedMessage → ℕ → Option (Bool × NormalizedMessage)
parse_order_executed_with_price p length output local_timestamp =
    if ltb length Layout.order_executed_with_price_size then some (false, output) else do
      locate ← read_u16_be (field p Layout.order_executed_with_price Field.stock_locate)
      order ← read_u64_be (field p Layout.order_executed_with_price Field.order_reference_number)
      time ← read_u64_be (field p Layout.order_executed_with_price Field.timestamp)
      amount ← read_u32_be (field p Layout.order_executed_with_price Field.executed_shares)
      cents ← read_u32_be (field p Layout.order_executed_with_price Field.execution_price)
      tracking ← read_u16_be (field p Layout.order_executed_with_price Field.tracking_number)
      some (
        true,
        record output {
          type = MessageKind.order_execute;
          instrument_id = locate;
          order_id = order;
          timestamp = time;
          local_timestamp = local_timestamp;
          quantity = amount;
          price = pos cents;
          sequence = tracking;
        },
      )

unfoldable pub parse_trade : List ℕ → ℕ → NormalizedMessage → ℕ → Option (Bool × NormalizedMessage)
parse_trade p length output local_timestamp =
    if ltb length Layout.trade_size then some (false, output) else do
      locate ← read_u16_be (field p Layout.trade Field.stock_locate)
      order ← read_u64_be (field p Layout.trade Field.order_reference_number)
      time ← read_u64_be (field p Layout.trade Field.timestamp)
      indicator ← read_u8 (field p Layout.trade Field.buy_sell_indicator)
      amount ← read_u32_be (field p Layout.trade Field.shares)
      cents ← read_u32_be (field p Layout.trade Field.price)
      tracking ← read_u16_be (field p Layout.trade Field.tracking_number)
      some (
        true,
        record output {
          type = MessageKind.trade;
          instrument_id = locate;
          order_id = order;
          timestamp = time;
          local_timestamp = local_timestamp;
          side = side_of indicator;
          quantity = amount;
          price = pos cents;
          sequence = tracking;
        },
      )
