-- ===== src/Tests/Packets.antt =====
-- ITCH packets (protocols/itch50, examples/itch_generator.cpp) on concrete inputs.
use winter_square.Common.{false, ℕ, ◌≡◌, refl, List, [], ◌∷◌, ◌++◌, some, arith}
use winter_square.Core.Types.{is_valid, MessageView, NormalizedMessage, MessageKind, blank}
use winter_square.Core.Parser.{Parsed}
use winter_square.Itch.Bytes.{read_u16_be}
use winter_square.Itch.Layout
use winter_square.Itch.Directory.{stock_directory_refused}
use winter_square.Itch.Parser.{
  ItchParser, initial, parse, parse_loop, turn, next_message, parse_message,
}
use winter_square.Itch.Builder.{build_packet, build_order_executed}
use winter_square.Itch.Decode.Message.{read_message, parse_message-read_message}
use winter_square.Itch.Loop.Safety.{IsSafe, parse-IsSafe}
use winter_square.Itch.Packet.Frames.{read_all}
use winter_square.Itch.Packet.Sent.{Sent, executed, bytes_of}
use winter_square.Itch.Packet.RoundTrip.{Carries, counted, fill, parse-build_packet, parse-sent}

-- Stock locate 7, 100 shares of order 42, at time 5.
abbrev order : Sent
order = executed 7 1 5 42 100 9

-- Its packet, with two more bytes behind it in the receive buffer.
abbrev packet : List ℕ
packet = build_packet (bytes_of order ∷ [])

abbrev view : MessageView
view = record { content = some (packet ++ 1 ∷ 2 ∷ []); length = 35; timestamp = 77; sequence = 0 }

view-Carries : Carries view (bytes_of order ∷ []) (1 ∷ 2 ∷ [])
unfolding build_packet build_order_executed
view-Carries = record { content = refl; whole = refl }

abbrev filled : NormalizedMessage
filled = record blank {
  type = MessageKind.order_execute;
  instrument_id = 7;
  order_id = 42;
  quantity = 100;
  timestamp = 5;
  local_timestamp = 77;
  sequence = 1;
}

parse-sent_example :
    parse initial view (blank ∷ []) 1
    ≡ some (1, filled ∷ [], record initial { messages_parsed = 1 })
unfolding fill
parse-sent_example =
    parse-sent initial view (blank ∷ []) 1 (1 ∷ 2 ∷ []) (order ∷ []) (omega arith) (omega arith)
      (omega arith) (omega arith) (omega arith) view-Carries

parse-build_packet_example :
    parse initial view (blank ∷ []) 1
    ≡ some (counted (read_all 1 77 (bytes_of order ∷ []) (0, blank ∷ [], initial)))
unfolding build_order_executed
parse-build_packet_example =
    parse-build_packet initial view (blank ∷ []) 1 (1 ∷ 2 ∷ []) (omega arith) (omega arith)
      (bytes_of order ∷ []) (omega arith) (omega arith) (omega arith) view-Carries

-- A packet whose only message claims 200 bytes.
abbrev broken : MessageView
broken = record { content = some (0 ∷ 200 ∷ 1 ∷ 2 ∷ []); length = 4; timestamp = 0; sequence = 0 }

parse-broken :
    parse initial broken (blank ∷ []) 1 ≡ some (0, blank ∷ [], record initial { parse_errors = 1 })
unfolding parse parse_loop turn next_message read_u16_be is_valid
parse-broken = refl

parse-IsSafe_example :
    (r : Parsed ItchParser) × (parse initial broken (blank ∷ []) 1 ≡ some r)
    × IsSafe broken (blank ∷ []) 1 r
parse-IsSafe_example =
    parse-IsSafe initial broken (0 ∷ 200 ∷ 1 ∷ 2 ∷ []) (blank ∷ []) 1 refl (omega arith)
      (omega arith) (omega arith)

-- A system event, 'O' for the start of messages, at time 3.
abbrev event : List ℕ
event = 0 ∷ 0 ∷ 0 ∷ 2 ∷ 0 ∷ 0 ∷ 0 ∷ 0 ∷ 0 ∷ 0 ∷ 0 ∷ 3 ∷ b'S' ∷ b'O' ∷ []

parse_message-read_message_example :
    parse_message initial event 14 blank 8 ≡ some (read_message initial event 14 blank 8)
parse_message-read_message_example =
    parse_message-read_message initial event (omega arith) 14 (omega arith) blank 8

-- A stock directory message for locate 1, of the symbol "ABCDEFGH".
abbrev directory : List ℕ
directory =
    0 ∷ 1 ∷ 0 ∷ 2 ∷ 0 ∷ 0 ∷ 0 ∷ 0 ∷ 0 ∷ 0 ∷ 0 ∷ 9 ∷ b'R' ∷ b'A' ∷ b'B' ∷ b'C' ∷ b'D' ∷ b'E' ∷ b'F'
    ∷ b'G' ∷ b'H' ∷ b'Q' ∷ b'N' ∷ 0 ∷ 0 ∷ 0 ∷ 100 ∷ b'N' ∷ b'C' ∷ b'Z' ∷ b' ' ∷ b'P' ∷ b'N' ∷ b'1'
    ∷ b'N' ∷ 0 ∷ 0 ∷ 0 ∷ 0 ∷ b'N' ∷ []

stock_directory_refused_example :
    parse_message initial directory 40 blank 8 ≡ some (false, blank, initial)
unfolding Layout.size_of
stock_directory_refused_example =
    stock_directory_refused initial directory blank 8 (omega arith) refl refl
