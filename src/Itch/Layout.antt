-- ===== src/Itch/Layout.antt =====
-- The packed message structures of protocols/itch50/itch50_messages.hpp: under `#pragma pack(1)` a
-- field stands right behind the one before it, so that a structure is its fields with their widths.
use winter_square.Common.{ℕ, ◌+◌, List, [], ◌∷◌, ◌++◌, ◌==◌, if◌then◌else◌, drop}

pub data Field : Type 0 where
  stock_locate tracking_number timestamp message_type : Field
  event_code stock market_category financial_status round_lot_size round_lots_only : Field
  issue_classification issue_sub_type authenticity ipo_flag luld_ref_price_tier : Field
  etp_flag etp_leverage_factor inverse_indicator : Field
  order_reference_number buy_sell_indicator shares price attribution : Field
  executed_shares match_number printable execution_price cancelled_shares : Field
  original_order_reference_number new_order_reference_number cross_price cross_type : Field

-- The declaration order, by which fields are told apart.
abbrev pub field_number : Field → ℕ
field_number stock_locate = 0
field_number tracking_number = 1
field_number timestamp = 2
field_number message_type = 3
field_number event_code = 4
field_number stock = 5
field_number market_category = 6
field_number financial_status = 7
field_number round_lot_size = 8
field_number round_lots_only = 9
field_number issue_classification = 10
field_number issue_sub_type = 11
field_number authenticity = 12
field_number ipo_flag = 13
field_number luld_ref_price_tier = 14
field_number etp_flag = 15
field_number etp_leverage_factor = 16
field_number inverse_indicator = 17
field_number order_reference_number = 18
field_number buy_sell_indicator = 19
field_number shares = 20
field_number price = 21
field_number attribution = 22
field_number executed_shares = 23
field_number match_number = 24
field_number printable = 25
field_number execution_price = 26
field_number cancelled_shares = 27
field_number original_order_reference_number = 28
field_number new_order_reference_number = 29
field_number cross_price = 30
field_number cross_type = 31

abbrev pub Layout : Type 0
Layout = List (Field × ℕ)

-- `sizeof`
unfoldable pub size_of : Layout → ℕ
size_of [] = 0
size_of ((_, width) ∷ fields) = width + size_of fields

-- `offsetof`: the widths of the fields before `f`.
unfoldable pub offset_of : Layout → Field → ℕ
offset_of [] f = 0
offset_of ((g, width) ∷ fields) f =
    if field_number g == field_number f then 0 else width + offset_of fields f

-- `&msg->f`, for a structure laid over the bytes at `p`
abbrev pub field : List ℕ → Layout → Field → List ℕ
field p layout f = drop (offset_of layout f) p

-- Every structure begins with the fields of `MessageHeader`.
abbrev pub header : Layout
header = (stock_locate, 2) ∷ (tracking_number, 2) ∷ (timestamp, 8) ∷ (message_type, 1) ∷ []

abbrev pub system_event : Layout
system_event = header ++ (event_code, 1) ∷ []

-- `SystemEventMessage::SIZE`
abbrev pub system_event_size : ℕ
system_event_size = 14

abbrev pub stock_directory : Layout
stock_directory =
    header
    ++ (stock, 8)
      ∷ (market_category, 1)
      ∷ (financial_status, 1)
      ∷ (round_lot_size, 4)
      ∷ (round_lots_only, 1)
      ∷ (issue_classification, 1)
      ∷ (issue_sub_type, 2)
      ∷ (authenticity, 1)
      ∷ (ipo_flag, 1)
      ∷ (luld_ref_price_tier, 1)
      ∷ (etp_flag, 1)
      ∷ (etp_leverage_factor, 4)
      ∷ (inverse_indicator, 1)
      ∷ []

-- `StockDirectoryMessage::SIZE`
abbrev pub stock_directory_size : ℕ
stock_directory_size = 41

abbrev pub add_order : Layout
add_order =
    header
    ++ (order_reference_number, 8)
      ∷ (buy_sell_indicator, 1)
      ∷ (shares, 4)
      ∷ (stock, 8)
      ∷ (price, 4)
      ∷ []

-- `AddOrderMessage::SIZE`
abbrev pub add_order_size : ℕ
add_order_size = 38

abbrev pub add_order_mpid : Layout
add_order_mpid =
    header
    ++ (order_reference_number, 8)
      ∷ (buy_sell_indicator, 1)
      ∷ (shares, 4)
      ∷ (stock, 8)
      ∷ (price, 4)
      ∷ (attribution, 4)
      ∷ []

-- `AddOrderMPIDMessage::SIZE`
abbrev pub add_order_mpid_size : ℕ
add_order_mpid_size = 42

abbrev pub order_executed : Layout
order_executed =
    header ++ (order_reference_number, 8) ∷ (executed_shares, 4) ∷ (match_number, 8) ∷ []

-- `OrderExecutedMessage::SIZE`
abbrev pub order_executed_size : ℕ
order_executed_size = 33

abbrev pub order_executed_with_price : Layout
order_executed_with_price =
    header
    ++ (order_reference_number, 8)
      ∷ (executed_shares, 4)
      ∷ (match_number, 8)
      ∷ (printable, 1)
      ∷ (execution_price, 4)
      ∷ []

-- `OrderExecutedWithPriceMessage::SIZE`
abbrev pub order_executed_with_price_size : ℕ
order_executed_with_price_size = 38

abbrev pub order_cancel : Layout
order_cancel = header ++ (order_reference_number, 8) ∷ (cancelled_shares, 4) ∷ []

-- `OrderCancelMessage::SIZE`
abbrev pub order_cancel_size : ℕ
order_cancel_size = 25

abbrev pub order_delete : Layout
order_delete = header ++ (order_reference_number, 8) ∷ []

-- `OrderDeleteMessage::SIZE`
abbrev pub order_delete_size : ℕ
order_delete_size = 21

abbrev pub order_replace : Layout
order_replace =
    header
    ++ (original_order_reference_number, 8)
      ∷ (new_order_reference_number, 8)
      ∷ (shares, 4)
      ∷ (price, 4)
      ∷ []

-- `OrderReplaceMessage::SIZE`
abbrev pub order_replace_size : ℕ
order_replace_size = 37

abbrev pub trade : Layout
trade =
    header
    ++ (order_reference_number, 8)
      ∷ (buy_sell_indicator, 1)
      ∷ (shares, 4)
      ∷ (stock, 8)
      ∷ (price, 4)
      ∷ (match_number, 8)
      ∷ []

-- `TradeMessage::SIZE`
abbrev pub trade_size : ℕ
trade_size = 46

abbrev pub cross_trade : Layout
cross_trade =
    header ++ (shares, 8) ∷ (stock, 8) ∷ (cross_price, 4) ∷ (match_number, 8) ∷ (cross_type, 1) ∷ []

-- `CrossTradeMessage::SIZE`
abbrev pub cross_trade_size : ℕ
cross_trade_size = 42

abbrev pub broken_trade : Layout
broken_trade = header ++ (match_number, 8) ∷ []

-- `BrokenTradeMessage::SIZE`
abbrev pub broken_trade_size : ℕ
broken_trade_size = 21
