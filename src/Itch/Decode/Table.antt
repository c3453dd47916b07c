-- ===== src/Itch/Decode/Table.antt =====
-- What each type of message says, as big-endian numbers at the offsets of the wire format. The
-- fields of `output` that a line does not name keep what they held.
use winter_square.Common.{ℕ, List}
use winter_square.Common.Int.{pos}
use winter_square.Core.Types.{NormalizedMessage, MessageKind}
use winter_square.Itch.Messages.{MessageType}
use winter_square.Itch.Handlers.{side_of}
use winter_square.Itch.Decode.Fields.{u8, u16, u32, u64}

unfoldable pub decode : MessageType → List ℕ → NormalizedMessage → ℕ → NormalizedMessage
decode MessageType.system_event p output now = record output {
  type = MessageKind.system_event;
  timestamp = u64 p 4;
  local_timestamp = now;
  instrument_id = 0;
  sequence = u16 p 2;
}
decode MessageType.stock_directory p output now = record output {
  type = MessageKind.system_event;
  timestamp = u64 p 4;
  local_timestamp = now;
  instrument_id = u16 p 0;
  sequence = u16 p 2;
}
decode MessageType.add_order p output now = record output {
  type = MessageKind.order_add;
  instrument_id = u16 p 0;
  order_id = u64 p 13;
  timestamp = u64 p 4;
  local_timestamp = now;
  side = side_of (u8 p 21);
  quantity = u32 p 22;
  price = pos (u32 p 34);
  sequence = u16 p 2;
}
decode MessageType.add_order_mpid p output now = record output {
  type = MessageKind.order_add;
  instrument_id = u16 p 0;
  order_id = u64 p 13;
  timestamp = u64 p 4;
  local_timestamp = now;
  side = side_of (u8 p 21);
  quantity = u32 p 22;
  price = pos (u32 p 34);
  sequence = u16 p 2;
}
decode MessageType.order_executed p output now = record output {
  type = MessageKind.order_execute;
  instrument_id = u16 p 0;
  order_id = u64 p 13;
  timestamp = u64 p 4;
  local_timestamp = now;
  quantity = u32 p 21;
  sequence = u16 p 2;
}
decode MessageType.order_executed_with_price p output now = record output {
  type = MessageKind.order_execute;
  instrument_id = u16 p 0;
  order_id = u64 p 13;
  timestamp = u64 p 4;
  local_timestamp = now;
  quantity = u32 p 21;
  price = pos (u32 p 34);
  sequence = u16 p 2;
}
decode MessageType.order_cancel p output now = record output {
  type = MessageKind.order_modify;
  instrument_id = u16 p 0;
  order_id = u64 p 13;
  timestamp = u64 p 4;
  local_timestamp = now;
  quantity = u32 p 21;
  sequence = u16 p 2;
}
decode MessageType.order_delete p output now = record output {
  type = MessageKind.order_delete;
  instrument_id = u16 p 0;
  order_id = u64 p 13;
  timestamp = u64 p 4;
  local_timestamp = now;
  sequence = u16 p 2;
}
decode MessageType.order_replace p output now = record output {
  type = MessageKind.order_modify;
  instrument_id = u16 p 0;
  order_id = u64 p 21;
  timestamp = u64 p 4;
  local_timestamp = now;
  quantity = u32 p 29;
  price = pos (u32 p 33);
  sequence = u16 p 2;
}
decode MessageType.trade p output now = record output {
  type = MessageKind.trade;
  instrument_id = u16 p 0;
  order_id = u64 p 13;
  timestamp = u64 p 4;
  local_timestamp = now;
  side = side_of (u8 p 21);
  quantity = u32 p 22;
  price = pos (u32 p 34);
  sequence = u16 p 2;
}
decode _ p output now = output
