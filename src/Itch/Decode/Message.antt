-- ===== src/Itch/Decode/Message.antt =====
-- One message: what `parse_message` answers, for every byte sequence.
use winter_square.Common.{
  ℕ, ◌≤◌, ◌≡◌, refl, Bool, true, false, List, Option, none, some, arith, ltb, leb, ◌&&◌,
  if◌then◌else◌, not, length, take, drop, All, Bool-cases, inl, inr,
}
use winter_square.Core.Types.{NormalizedMessage}
use winter_square.Itch.Bytes.{IsByte}
use winter_square.Itch.Messages.{MessageType, of_byte, get_message_size}
use winter_square.Itch.Handlers.{assign}
use winter_square.Itch.Parser.{ItchParser, count_error, handle, parse_message}
use winter_square.Itch.Decode.Fields.{u8, u16, get_elem?-some}
use winter_square.Itch.Decode.Table.{decode}
use winter_square.Itch.Decode.Each

-- The types that have a handler.
unfoldable pub is_handled : MessageType → Bool
is_handled MessageType.system_event = true
is_handled MessageType.stock_directory = true
is_handled MessageType.add_order = true
is_handled MessageType.add_order_mpid = true
is_handled MessageType.order_executed = true
is_handled MessageType.order_executed_with_price = true
is_handled MessageType.order_cancel = true
is_handled MessageType.order_delete = true
is_handled MessageType.order_replace = true
is_handled MessageType.trade = true
is_handled _ = false

-- A stock directory message names the symbol of its stock locate.
unfoldable pub learn : MessageType → List ℕ → ItchParser → ItchParser
learn MessageType.stock_directory p s = record s {
  stock_map = assign s.stock_map (u16 p 0) (take 8 (drop 13 p));
}
learn _ p s = s

-- A message of a handled type that has the bytes of its type is decoded; any other is passed over.
unfoldable pub answer :
    Option MessageType
    → ItchParser
    → List ℕ
    → ℕ
    → NormalizedMessage
    → ℕ
    → Bool × NormalizedMessage × ItchParser
answer none s p n output now = (false, output, s)
answer (some t) s p n output now =
    if is_handled t && leb (get_message_size (some t)) n
    then (true, decode t p output now, learn t p s)
    else (false, output, s)

unfoldable pub read_message :
    ItchParser → List ℕ → ℕ → NormalizedMessage → ℕ → Bool × NormalizedMessage × ItchParser
unfolding answer
read_message s p n output now =
    if ltb n 13 then (false, output, count_error s) else answer (of_byte (u8 p 12)) s p n output now

leb-of-ltb : (n k : ℕ) (b : Bool) → ltb n k ≡ b → leb k n ≡ not b
leb-of-ltb n k true e = ground arith
leb-of-ltb n k false e = ground arith

module _ (s : ItchParser) (p : List ℕ) (bytes : All IsByte p) (n : ℕ) (within : n ≤ length p)
    (output : NormalizedMessage) (now : ℕ) where
  handle_lem :
      (t : Option MessageType) → handle t s p n output now ≡ some (answer t s p n output now)
  unfolding handle answer is_handled learn get_message_size
  handle_lem (some MessageType.system_event) = elim (Bool-cases (ltb n 14)) [
    | inl short ↦
        rw (Each.system_event_short p bytes n within output now short, leb-of-ltb n 14 true short)
    | inr long ↦
        rw (Each.system_event_long p bytes n within output now long, leb-of-ltb n 14 false long)
  ]
  handle_lem (some MessageType.stock_directory) = elim (Bool-cases (ltb n 41)) [
    | inl short ↦ rw (
      Each.stock_directory_short p bytes n within output now s.stock_map short,
      leb-of-ltb n 41 true short,
    )
    | inr long ↦ rw (
      Each.stock_directory_long p bytes n within output now s.stock_map long,
      leb-of-ltb n 41 false long,
    )
  ]
  handle_lem (some MessageType.add_order) = elim (Bool-cases (ltb n 38)) [
    | inl short ↦
        rw (Each.add_order_short p bytes n within output now short, leb-of-ltb n 38 true short)
    | inr long ↦
        rw (Each.add_order_long p bytes n within output now long, leb-of-ltb n 38 false long)
  ]
  handle_lem (some MessageType.add_order_mpid) = elim (Bool-cases (ltb n 42)) [
    | inl short ↦
        rw (Each.add_order_mpid_short p bytes n within output now short, leb-of-ltb n 42 true short)
    | inr long ↦
        rw (Each.add_order_mpid_long p bytes n within output now long, leb-of-ltb n 42 false long)
  ]
  handle_lem (some MessageType.order_executed) = elim (Bool-cases (ltb n 33)) [
    | inl short ↦
        rw (Each.order_executed_short p bytes n within output now short, leb-of-ltb n 33 true short)
    | inr long ↦
        rw (Each.order_executed_long p bytes n within output now long, leb-of-ltb n 33 false long)
  ]
  handle_lem (some MessageType.order_executed_with_price) = elim (Bool-cases (ltb n 38)) [
    | inl short ↦ rw (
      Each.order_executed_with_price_short p bytes n within output now short,
      leb-of-ltb n 38 true short,
    )
    | inr long ↦ rw (
      Each.order_executed_with_price_long p bytes n within output now long,
      leb-of-ltb n 38 false long,
    )
  ]
  handle_lem (some MessageType.order_cancel) = elim (Bool-cases (ltb n 25)) [
    | inl short ↦
        rw (Each.order_cancel_short p bytes n within output now short, leb-of-ltb n 25 true short)
    | inr long ↦
        rw (Each.order_cancel_long p bytes n within output now long, leb-of-ltb n 25 false long)
  ]
  handle_lem (some MessageType.order_delete) = elim (Bool-cases (ltb n 21)) [
    | inl short ↦
        rw (Each.order_delete_short p bytes n within output now short, leb-of-ltb n 21 true short)
    | inr long ↦
        rw (Each.order_delete_long p bytes n within output now long, leb-of-ltb n 21 false long)
  ]
  handle_lem (some MessageType.order_replace) = elim (Bool-cases (ltb n 37)) [
    | inl short ↦
        rw (Each.order_replace_short p bytes n within output now short, leb-of-ltb n 37 true short)
    | inr long ↦
        rw (Each.order_replace_long p bytes n within output now long, leb-of-ltb n 37 false long)
  ]
  handle_lem (some MessageType.trade) = elim (Bool-cases (ltb n 46)) [
    | inl short ↦
        rw (Each.trade_short p bytes n within output now short, leb-of-ltb n 46 true short)
    | inr long ↦ rw (Each.trade_long p bytes n within output now long, leb-of-ltb n 46 false long)
  ]
  handle_lem none = refl
  handle_lem _ = refl

  -- On any bytes, if the given length is not above the buffer's, `parse_message` reads within the
  -- buffer and answers as `read_message` says.
  pub parse_message-read_message :
      parse_message s p n output now ≡ some (read_message s p n output now)
  unfolding parse_message read_message
  parse_message-read_message = elim (Bool-cases (ltb n 13)) [
    | inl short ↦ rw short
    | inr long ↦ rw (long, get_elem?-some p 12 (ground arith), handle_lem)
  ]

is_handled_size : (t : MessageType) → is_handled t ≡ true → 14 ≤ get_message_size (some t)
unfolding is_handled get_message_size
is_handled_size MessageType.system_event h = omega arith
is_handled_size MessageType.stock_directory h = omega arith
is_handled_size _ h = ground arith

module _ (s : ItchParser) (p : List ℕ) (n : ℕ) (output : NormalizedMessage) (now : ℕ) where
  answer_undone :
      (t : Option MessageType)
      → (answer t s p n output now).0 ≡ false
      → (answer t s p n output now).1 ≡ output
  unfolding answer
  answer_undone none e = refl
  answer_undone (some t) e = elim (Bool-cases (is_handled t && leb (get_message_size (some t)) n)) [
    | inl yes' ↦ cc (rw yes' at e)
    | inr no' ↦ rw no'
  ]

  answer_done : (t : Option MessageType) → (answer t s p n output now).0 ≡ true → 14 ≤ n
  unfolding answer
  answer_done none e = cc
  answer_done (some t) e = ground (arith, is_handled_size t)

  -- A message that is not taken leaves its slot alone.
  pub read_message_undone :
      (read_message s p n output now).0 ≡ false → (read_message s p n output now).1 ≡ output
  unfolding read_message
  read_message_undone e = elim (Bool-cases (ltb n 13)) [
    | inl short ↦ rw short
    | inr long ↦ rw long (answer_undone (of_byte (u8 p 12)) (rw long at e))
  ]

  -- A message that is taken has 14 bytes at least.
  pub read_message_done : (read_message s p n output now).0 ≡ true → 14 ≤ n
  unfolding read_message
  read_message_done e = ground (arith, answer_done (of_byte (u8 p 12)))
