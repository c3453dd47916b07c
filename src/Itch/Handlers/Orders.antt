-- ===== src/Itch/Handlers/Orders.antt =====
-- The handlers that add, change and delete orders (protocols/itch50/itch50_parser.hpp).
use winter_square.Common.{ℕ, Bool, true, false, List, Option, some, ltb, if◌then◌else◌, ◌>>=◌}
use winter_square.Common.Int.{pos}
use winter_square.Core.Types.{NormalizedMessage, MessageKind}
use winter_square.Itch.Bytes.{read_u16_be, read_u32_be, read_u64_be}
use winter_square.Itch.Layout
use winter_square.Itch.Layout.{field, Field}
use winter_square.Itch.Handlers.Fields.{read_u8, side_of}

unfoldable pub parse_add_order :
    List ℕ → ℕ → NormalizedMessage → ℕ → Option (Bool × NormalizedMessage)
parse_add_order p length output local_timestamp =
    if ltb length Layout.add_order_size then some (false, output) else do
      locate ← read_u16_be (field p Layout.add_order Field.stock_locate)
      order ← read_u64_be (field p Layout.add_order Field.order_reference_number)
      time ← read_u64_be (field p Layout.add_order Field.timestamp)
      indicator ← read_u8 (field p Layout.add_order Field.buy_sell_indicator)
      amount ← read_u32_be (field p Layout.add_order Field.shares)
      cents ← read_u32_be (field p Layout.add_order Field.price)
      tracking ← read_u16_be (field p Layout.add_order Field.tracking_number)
      some (
        true,
        record output {
          type = MessageKind.order_add;
          instrument_id = locate;
          order_id = order;
          timestamp = time;
          local_timestamp = local_timestamp;
          side = side_of indicator;
          quantity = amount;
          price = pos cents;
          sequence = tracking;
        },
      )

unfoldable pub parse_add_order_mpid :
    List ℕ → ℕ → NormalizedMessage → ℕ → Option (Bool × NormalizedMessage)
parse_add_order_mpid p length output local_timestamp =
    if ltb length Layout.add_order_mpid_size then some (false, output) else do
      locate ← read_u16_be (field p Layout.add_order_mpid Field.stock_locate)
      order ← read_u64_be (field p Layout.add_order_mpid Field.order_reference_number)
      time ← read_u64_be (field p Layout.add_order_mpid Field.timestamp)
      indicator ← read_u8 (field p Layout.add_order_mpid Field.buy_sell_indicator)
      amount ← read_u32_be (field p Layout.add_order_mpid Field.shares)
      cents ← read_u32_be (field p Layout.add_order_mpid Field.price)
      tracking ← read_u16_be (field p Layout.add_order_mpid Field.tracking_number)
      some (
        true,
        record output {
          type = MessageKind.order_add;
          instrument_id = locate;
          order_id = order;
          timestamp = time;
          local_timestamp = local_timestamp;
          side = side_of indicator;
          quantity = amount;
          price = pos cents;
          sequence = tracking;
        },
      )

unfoldable pub parse_order_cancel :
    List ℕ → ℕ → NormalizedMessage → ℕ → Option (Bool × NormalizedMessage)
parse_order_cancel p length output local_timestamp =
    if ltb length Layout.order_cancel_size then some (false, output) else do
      locate ← read_u16_be (field p Layout.order_cancel Field.stock_locate)
      order ← read_u64_be (field p Layout.order_cancel Field.order_reference_number)
      time ← read_u64_be (field p Layout.order_cancel Field.timestamp)
      amount ← read_u32_be (field p Layout.order_cancel Field.cancelled_shares)
      tracking ← read_u16_be (field p Layout.order_cancel Field.tracking_number)
      some (
        true,
        record output {
          type = MessageKind.order_modify;
          instrument_id = locate;
          order_id = order;
          timestamp = time;
          local_timestamp = local_timestamp;
          quantity = amount;
          sequence = tracking;
        },
      )

unfoldable pub parse_order_delete :
    List ℕ → ℕ → NormalizedMessage → ℕ → Option (Bool × NormalizedMessage)
parse_order_delete p length output local_timestamp =
    if ltb length Layout.order_delete_size then some (false, output) else do
      locate ← read_u16_be (field p Layout.order_delete Field.stock_locate)
      order ← read_u64_be (field p Layout.order_delete Field.order_reference_number)
      time ← read_u64_be (field p Layout.order_delete Field.timestamp)
      tracking ← read_u16_be (field p Layout.order_delete Field.tracking_number)
      some (
        true,
        record output {
          type = MessageKind.order_delete;
          instrument_id = locate;
          order_id = order;
          timestamp = time;
          local_timestamp = local_timestamp;
          sequence = tracking;
        },
      )

unfoldable pub parse_order_replace :
    List ℕ → ℕ → NormalizedMessage → ℕ → Option (Bool × NormalizedMessage)
parse_order_replace p length output local_timestamp =
    if ltb length Layout.order_replace_size then some (false, output) else do
      locate ← read_u16_be (field p Layout.order_replace Field.stock_locate)
      order ← read_u64_be (field p Layout.order_replace Field.new_order_reference_number)
      time ← read_u64_be (field p Layout.order_replace Field.timestamp)
      amount ← read_u32_be (field p Layout.order_replace Field.shares)
      cents ← read_u32_be (field p Layout.order_replace Field.price)
      tracking ← read_u16_be (field p Layout.order_replace Field.tracking_number)
      some (
        true,
        record output {
          type = MessageKind.order_modify;
          instrument_id = locate;
          order_id = order;
          timestamp = time;
          local_timestamp = local_timestamp;
          quantity = amount;
          price = pos cents;
          sequence = tracking;
        },
      )
