-- ===== src/Itch/Decode/Each.antt =====
-- Each handler fills `output` with what its message says, or refuses a message below its size.
use winter_square.Common.{ℕ, ◌≤◌, ◌≡◌, true, false, List, some, arith, ltb, length, take, drop, All}
use winter_square.Core.Types.{NormalizedMessage}
use winter_square.Itch.Bytes.{IsByte}
use winter_square.Itch.Layout.{offset_of}
use winter_square.Itch.Messages.{MessageType}
use winter_square.Itch.Handlers
use winter_square.Itch.Handlers.{StockMap, assign}
use winter_square.Itch.Decode.Fields.{u16, read_u16, read_u32, read_u64, read_u8, read_chars-take}
use winter_square.Itch.Decode.Table.{decode}

module _ (p : List ℕ) (bytes : All IsByte p) (n : ℕ) (within : n ≤ length p)
    (output : NormalizedMessage) (now : ℕ) where
  pub system_event_long :
      ltb n 14 ≡ false
      → Handlers.parse_system_event p n output now
        ≡ some (true, decode MessageType.system_event p output now)
  unfolding Handlers.parse_system_event offset_of decode
  system_event_long long =
      let enough : 14 ≤ n = ground arith in
      rw (long, read_u64 p bytes 4 (omega arith), read_u16 p bytes 2 (omega arith))

  pub system_event_short :
      ltb n 14 ≡ true → Handlers.parse_system_event p n output now ≡ some (false, output)
  unfolding Handlers.parse_system_event
  system_event_short short = rw short

  pub stock_directory_long :
      (m : StockMap)
      → ltb n 41 ≡ false
      → Handlers.parse_stock_directory m p n output now
        ≡ some (
          true,
          decode MessageType.stock_directory p output now,
          assign m (u16 p 0) (take 8 (drop 13 p)),
        )
  unfolding Handlers.parse_stock_directory offset_of decode
  stock_directory_long m long =
      let enough : 41 ≤ n = ground arith in
      rw (
        long,
        read_u16 p bytes 0 (omega arith),
        read_chars-take p 13 8 (omega arith),
        read_u64 p bytes 4 (omega arith),
        read_u16 p bytes 2 (omega arith),
      )

  pub stock_directory_short :
      (m : StockMap)
      → ltb n 41 ≡ true
      → Handlers.parse_stock_directory m p n output now ≡ some (false, output, m)
  unfolding Handlers.parse_stock_directory
  stock_directory_short m short = rw short

  pub add_order_long :
      ltb n 38 ≡ false
      → Handlers.parse_add_order p n output now
        ≡ some (true, decode MessageType.add_order p output now)
  unfolding Handlers.parse_add_order offset_of decode
  add_order_long long =
      let enough : 38 ≤ n = ground arith in
      rw (
        long,
        read_u16 p bytes 0 (omega arith),
        read_u64 p bytes 13 (omega arith),
        read_u64 p bytes 4 (omega arith),
        read_u8 p 21 (omega arith),
        read_u32 p bytes 22 (omega arith),
        read_u32 p bytes 34 (omega arith),
        read_u16 p bytes 2 (omega arith),
      )

  pub add_order_short :
      ltb n 38 ≡ true → Handlers.parse_add_order p n output now ≡ some (false, output)
  unfolding Handlers.parse_add_order
  add_order_short short = rw short

  pub add_order_mpid_long :
      ltb n 42 ≡ false
      → Handlers.parse_add_order_mpid p n output now
        ≡ some (true, decode MessageType.add_order_mpid p output now)
  unfolding Handlers.parse_add_order_mpid offset_of decode
  add_order_mpid_long long =
      let enough : 42 ≤ n = ground arith in
      rw (
        long,
        read_u16 p bytes 0 (omega arith),
        read_u64 p bytes 13 (omega arith),
        read_u64 p bytes 4 (omega arith),
        read_u8 p 21 (omega arith),
        read_u32 p bytes 22 (omega arith),
        read_u32 p bytes 34 (omega arith),
        read_u16 p bytes 2 (omega arith),
      )

  pub add_order_mpid_short :
      ltb n 42 ≡ true → Handlers.parse_add_order_mpid p n output now ≡ some (false, output)
  unfolding Handlers.parse_add_order_mpid
  add_order_mpid_short short = rw short

  pub order_executed_long :
      ltb n 33 ≡ false
      → Handlers.parse_order_executed p n output now
        ≡ some (true, decode MessageType.order_executed p output now)
  unfolding Handlers.parse_order_executed offset_of decode
  order_executed_long long =
      let enough : 33 ≤ n = ground arith in
      rw (
        long,
        read_u16 p bytes 0 (omega arith),
        read_u64 p bytes 13 (omega arith),
        read_u64 p bytes 4 (omega arith),
        read_u32 p bytes 21 (omega arith),
        read_u16 p bytes 2 (omega arith),
      )

  pub order_executed_short :
      ltb n 33 ≡ true → Handlers.parse_order_executed p n output now ≡ some (false, output)
  unfolding Handlers.parse_order_executed
  order_executed_short short = rw short

  pub order_executed_with_price_long :
      ltb n 38 ≡ false
      → Handlers.parse_order_executed_with_price p n output now
        ≡ some (true, decode MessageType.order_executed_with_price p output now)
  unfolding Handlers.parse_order_executed_with_price offset_of decode
  order_executed_with_price_long long =
      let enough : 38 ≤ n = ground arith in
      rw (
        long,
        read_u16 p bytes 0 (omega arith),
        read_u64 p bytes 13 (omega arith),
        read_u64 p bytes 4 (omega arith),
        read_u32 p bytes 21 (omega arith),
        read_u32 p bytes 34 (omega arith),
        read_u16 p bytes 2 (omega arith),
      )

  pub order_executed_with_price_short :
      ltb n 38 ≡ true
      → Handlers.parse_order_executed_with_price p n output now ≡ some (false, output)
  unfolding Handlers.parse_order_executed_with_price
  order_executed_with_price_short short = rw short

  pub order_cancel_long :
      ltb n 25 ≡ false
      → Handlers.parse_order_cancel p n output now
        ≡ some (true, decode MessageType.order_cancel p output now)
  unfolding Handlers.parse_order_cancel offset_of decode
  order_cancel_long long =
      let enough : 25 ≤ n = ground arith in
      rw (
        long,
        read_u16 p bytes 0 (omega arith),
        read_u64 p bytes 13 (omega arith),
        read_u64 p bytes 4 (omega arith),
        read_u32 p bytes 21 (omega arith),
        read_u16 p bytes 2 (omega arith),
      )

  pub order_cancel_short :
      ltb n 25 ≡ true → Handlers.parse_order_cancel p n output now ≡ some (false, output)
  unfolding Handlers.parse_order_cancel
  order_cancel_short short = rw short

  pub order_delete_long :
      ltb n 21 ≡ false
      → Handlers.parse_order_delete p n output now
        ≡ some (true, decode MessageType.order_delete p output now)
  unfolding Handlers.parse_order_delete offset_of decode
  order_delete_long long =
      let enough : 21 ≤ n = ground arith in
      rw (
        long,
        read_u16 p bytes 0 (omega arith),
        read_u64 p bytes 13 (omega arith),
        read_u64 p bytes 4 (omega arith),
        read_u16 p bytes 2 (omega arith),
      )

  pub order_delete_short :
      ltb n 21 ≡ true → Handlers.parse_order_delete p n output now ≡ some (false, output)
  unfolding Handlers.parse_order_delete
  order_delete_short short = rw short

  pub order_replace_long :
      ltb n 37 ≡ false
      → Handlers.parse_order_replace p n output now
        ≡ some (true, decode MessageType.order_replace p output now)
  unfolding Handlers.parse_order_replace offset_of decode
  order_replace_long long =
      let enough : 37 ≤ n = ground arith in
      rw (
        long,
        read_u16 p bytes 0 (omega arith),
        read_u64 p bytes 21 (omega arith),
        read_u64 p bytes 4 (omega arith),
        read_u32 p bytes 29 (omega arith),
        read_u32 p bytes 33 (omega arith),
        read_u16 p bytes 2 (omega arith),
      )

  pub order_replace_short :
      ltb n 37 ≡ true → Handlers.parse_order_replace p n output now ≡ some (false, output)
  unfolding Handlers.parse_order_replace
  order_replace_short short = rw short

  pub trade_long :
      ltb n 46 ≡ false
      → Handlers.parse_trade p n output now ≡ some (true, decode MessageType.trade p output now)
  unfolding Handlers.parse_trade offset_of decode
  trade_long long =
      let enough : 46 ≤ n = ground arith in
      rw (
        long,
        read_u16 p bytes 0 (omega arith),
        read_u64 p bytes 13 (omega arith),
        read_u64 p bytes 4 (omega arith),
        read_u8 p 21 (omega arith),
        read_u32 p bytes 22 (omega arith),
        read_u32 p bytes 34 (omega arith),
        read_u16 p bytes 2 (omega arith),
      )

  pub trade_short : ltb n 46 ≡ true → Handlers.parse_trade p n output now ≡ some (false, output)
  unfolding Handlers.parse_trade
  trade_short short = rw short
