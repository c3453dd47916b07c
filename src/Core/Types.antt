-- ===== src/Core/Types.antt =====
-- The data of core/types.hpp.
use winter_square.Common.{ℕ, ◌*◌, Bool, true, false, ◌&&◌, List, Option, none, some, ltb}
use winter_square.Common.Int.{ℤ, pos}

-- A view of a received packet. `content` is what `data` points at: the bytes from there to the end
-- of the buffer, or `none` for a null pointer.
pub record MessageView : Type 0 where
  pub content : Option (List ℕ)
  pub length : ℕ  -- uint32_t
  pub timestamp : ℕ  -- uint64_t
  pub sequence : ℕ  -- uint32_t

abbrev pub null_view : MessageView
null_view = record { content = none; length = 0; timestamp = 0; sequence = 0 }

is_not_null : Option (List ℕ) → Bool
is_not_null none = false
is_not_null (some _) = true

unfoldable pub is_valid : MessageView → Bool
unfolding is_not_null
is_valid v = is_not_null v.content && ltb 0 v.length

pub data MessageKind : Type 0 where
  unknown trade quote order_add order_modify order_delete order_execute imbalance system_event :
      MessageKind

pub record NormalizedMessage : Type 0 where
  pub type : MessageKind
  pub instrument_id : ℕ  -- uint64_t
  pub order_id : ℕ  -- uint64_t
  pub price : ℤ  -- int64_t
  pub quantity : ℕ  -- uint64_t
  pub side : ℕ  -- uint8_t: 0 to buy, 1 to sell
  pub timestamp : ℕ  -- uint64_t
  pub local_timestamp : ℕ  -- uint64_t
  pub sequence : ℕ  -- uint32_t

abbrev pub blank : NormalizedMessage
blank = record {
  type = unknown;
  instrument_id = 0;
  order_id = 0;
  price = pos 0;
  quantity = 0;
  side = 0;
  timestamp = 0;
  local_timestamp = 0;
  sequence = 0;
}

abbrev pub max_packet_size : ℕ
max_packet_size = 9000

abbrev pub packet_ring_size : ℕ
packet_ring_size = 1024 * 16

abbrev pub default_queue_size : ℕ
default_queue_size = 1024 * 64
