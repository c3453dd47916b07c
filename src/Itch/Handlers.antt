-- ===== src/Itch/Handlers.antt =====
-- The handlers of `ItchParser` (protocols/itch50/itch50_parser.hpp), one for each type of message.
-- `p` points at the message; a handler returns whether it filled `output`, and `output`, of which
-- it assigns some fields. `none` is a read outside the buffer.
mod Fields
mod Reference
mod Orders
mod Executions
pub use Fields.{read_u8, side_of, read_chars}
unfoldable pub use Reference.{parse_system_event, StockMap, assign, parse_stock_directory}
unfoldable pub use Orders.{
  parse_add_order, parse_add_order_mpid, parse_order_cancel, parse_order_delete,
  parse_order_replace,
}
unfoldable pub use Executions.{parse_order_executed, parse_order_executed_with_price, parse_trade}
