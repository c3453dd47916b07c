-- ===== src/Itch/Messages.antt =====
-- The message types of protocols/itch50/itch50_messages.hpp, and the sizes that go with them.
use winter_square.Common.{
  ℕ, ◌≡◌, refl, List, [], ◌∷◌, Option, none, some, ◌==◌, if◌then◌else◌, ◌↔◌, ==_iff, Bool-cases,
  inl, inr, sym, ap, ◌∙◌,
}
use winter_square.Itch.Layout
use mathlib.Core.Option.{some-injective}

-- `enum class MessageType : uint8_t`
pub data MessageType : Type 0 where
  system_event stock_directory stock_trading_action reg_sho_restriction : MessageType
  market_participant_position mwcb_decline_level mwcb_status ipo_quoting_period : MessageType
  add_order add_order_mpid order_executed order_executed_with_price order_cancel : MessageType
  order_delete order_replace trade cross_trade broken_trade noii rpii : MessageType

-- The character of a type.
unfoldable pub code : MessageType → ℕ
code system_event = b'S'
code stock_directory = b'R'
code stock_trading_action = b'H'
code reg_sho_restriction = b'Y'
code market_participant_position = b'L'
code mwcb_decline_level = b'V'
code mwcb_status = b'W'
code ipo_quoting_period = b'K'
code add_order = b'A'
code add_order_mpid = b'F'
code order_executed = b'E'
code order_executed_with_price = b'C'
code order_cancel = b'X'
code order_delete = b'D'
code order_replace = b'U'
code trade = b'P'
code cross_trade = b'Q'
code broken_trade = b'B'
code noii = b'I'
code rpii = b'N'

abbrev all_types : List MessageType
all_types =
    system_event ∷ stock_directory ∷ stock_trading_action ∷ reg_sho_restriction
    ∷ market_participant_position ∷ mwcb_decline_level ∷ mwcb_status ∷ ipo_quoting_period
    ∷ add_order ∷ add_order_mpid ∷ order_executed ∷ order_executed_with_price ∷ order_cancel
    ∷ order_delete ∷ order_replace ∷ trade ∷ cross_trade ∷ broken_trade ∷ noii ∷ rpii ∷ []

find_type : List MessageType → ℕ → Option MessageType
unfolding code
find_type [] b = none
find_type (t ∷ ts) b = if code t == b then some t else find_type ts b

-- `static_cast<MessageType>(b)`: `none` for a byte that is no enumerator.
unfoldable pub of_byte : ℕ → Option MessageType
unfolding find_type
of_byte b = find_type all_types b

find_type-code :
    (ts : List MessageType) (b : ℕ) (t : MessageType) → find_type ts b ≡ some t → code t ≡ b
unfolding find_type
find_type-code [] b t e = cc
find_type-code (s ∷ ts) b t e = elim (Bool-cases (code s == b)) [
  | inl c ↦ sym (ap code (some-injective s t (rw c at e))) ∙ (==_iff (code s) b).0 c
  | inr c ↦ find_type-code ts b t (rw c at e)
]

of_byte-code : (t : MessageType) → of_byte (code t) ≡ some t
unfolding of_byte
of_byte-code system_event = refl
of_byte-code stock_directory = refl
of_byte-code stock_trading_action = refl
of_byte-code reg_sho_restriction = refl
of_byte-code market_participant_position = refl
of_byte-code mwcb_decline_level = refl
of_byte-code mwcb_status = refl
of_byte-code ipo_quoting_period = refl
of_byte-code add_order = refl
of_byte-code add_order_mpid = refl
of_byte-code order_executed = refl
of_byte-code order_executed_with_price = refl
of_byte-code order_cancel = refl
of_byte-code order_delete = refl
of_byte-code order_replace = refl
of_byte-code trade = refl
of_byte-code cross_trade = refl
of_byte-code broken_trade = refl
of_byte-code noii = refl
of_byte-code rpii = refl

-- A byte is read as a type exactly if it is the character of that type, so that no two types share
-- a character.
pub of_byte_iff : (b : ℕ) (t : MessageType) → (of_byte b ≡ some t) ↔ (code t ≡ b)
of_byte_iff b t = (unfold of_byte in find_type-code all_types b t, λ e. rw e at (of_byte-code t))

-- `get_message_size`
unfoldable pub get_message_size : Option MessageType → ℕ
get_message_size (some system_event) = Layout.system_event_size
get_message_size (some stock_directory) = Layout.stock_directory_size
get_message_size (some stock_trading_action) = 27
get_message_size (some reg_sho_restriction) = 22
get_message_size (some market_participant_position) = 28
get_message_size (some mwcb_decline_level) = 37
get_message_size (some mwcb_status) = 14
get_message_size (some ipo_quoting_period) = 30
get_message_size (some add_order) = Layout.add_order_size
get_message_size (some add_order_mpid) = Layout.add_order_mpid_size
get_message_size (some order_executed) = Layout.order_executed_size
get_message_size (some order_executed_with_price) = Layout.order_executed_with_price_size
get_message_size (some order_cancel) = Layout.order_cancel_size
get_message_size (some order_delete) = Layout.order_delete_size
get_message_size (some order_replace) = Layout.order_replace_size
get_message_size (some trade) = Layout.trade_size
get_message_size (some cross_trade) = Layout.cross_trade_size
get_message_size (some broken_trade) = Layout.broken_trade_size
get_message_size (some noii) = 52
get_message_size (some rpii) = 22
get_message_size none = 0
