-- ===== src/Tests/Engine.antt =====
-- `CoreEngine` (core/core_engine.hpp) with `ItchParser` on concrete inputs.
use winter_square.Common.{Bool, ◌%◌, ◌^◌, ◌≡◌, refl, true, false, List, [], ◌∷◌, ◌++◌, some, arith}
use winter_square.Common.Int.{pos}
use winter_square.Core.Types.{MessageView, null_view, NormalizedMessage, MessageKind, blank}
use winter_square.Core.Statistics
use winter_square.Core.Parser.{Parsed}
use winter_square.Core.Subscriber.{Subscriber}
use winter_square.Core.Dispatcher.Mailboxes.{mailboxes, Ready}
use winter_square.Core.Dispatcher.Order.{append_all}
use winter_square.Core.Receiver.{Packet}
use winter_square.Core.Receiver.Views.{view_of}
use winter_square.Core.Engine.{CoreEngine, Joins, ok, parse_round, start, stop}
use winter_square.Core.Engine.Round.{IsReadable, after_packet, parse_round-packet}
use winter_square.Core.Engine.Lifecycle.{IsLocked, started, Return, Stops, start-stop}
use winter_square.Core.Engine.Threads.{Threads, begin, receive}
use winter_square.Core.Engine.Threads.Steps.{here, next, receives}
use winter_square.Queue.Spsc.{init, capacity}
use winter_square.Queue.Spsc.Refine.{contents}
use winter_square.Queue.Spsc.Ring.{IsSize, IsValid, distance, static_assert-IsSize, init-IsValid}
use winter_square.Itch.Parser
use winter_square.Itch.Parser.{ItchParser, itch_parser, parse, parse_message}
use winter_square.Itch.Builder.{build_packet, build_order_executed}
use winter_square.Itch.Contract.{itch_parser-IsParser}
use winter_square.Core.Dispatcher.{Dispatcher, dispatch_round}
use winter_square.Core.Dispatcher.Delivery.{deliver, deliver_all}
use winter_square.Itch.Packet.EndToEnd.{received, datagram_reaches_subscribers}
use winter_square.Itch.Packet.Sent.{Sent, executed, bytes_of}
use winter_square.Itch.Packet.RoundTrip.{fill}
use winter_square.Itch.Packet.Feed.{Holds, parse_round-sent}

four-IsSize : IsSize 4
four-IsSize = static_assert-IsSize 4 (omega arith) (omega arith) refl

-- A subscriber that keeps what it is given, newest first.
abbrev pub log_subscriber : Subscriber (List NormalizedMessage)
log_subscriber = record {
  on_message = λ log m. (true, m ∷ log);
  initialize = λ log. log;
  shutdown = λ log. log;
}

abbrev order : Sent
order = executed 7 1 5 42 100 9

-- The packet of one execution, in a buffer of two more bytes.
abbrev packet : Packet
packet = record {
  content = build_packet (bytes_of order ∷ []) ++ 1 ∷ 2 ∷ [];
  length = 35;
  timestamp = 77;
}

abbrev pub empty_packet : Packet
empty_packet = record { content = []; length = 0; timestamp = 0 }

-- An engine with one subscriber and that packet queued.
abbrev engine : CoreEngine ItchParser (List NormalizedMessage)
engine = record {
  max_messages_per_packet = 1;
  receiver = record {
    running = false;
    socket_fd = pos 3;
    packet_queue = record {
      size = 4;
      head = 1;
      tail = 0;
      buffer = packet ∷ empty_packet ∷ empty_packet ∷ empty_packet ∷ [];
    };
    current_packet = empty_packet;
    sequence = 6;
    stats = Statistics.initial;
  };
  dispatcher = record {
    subscribers = [] ∷ [];
    queues = init 4 blank ∷ [];
    running = false;
    stats = Statistics.initial;
  };
  parser = some Parser.initial;
  running = false;
  stats = Statistics.initial;
}

queue-IsValid : IsValid engine.receiver.packet_queue
queue-IsValid = record {
  is_size = four-IsSize;
  head_in = omega arith;
  tail_in = omega arith;
  room = refl;
}

queue-Ready : Ready 3 engine.dispatcher.subscribers engine.dispatcher.queues
unfolding capacity init
queue-Ready = (init-IsValid blank four-IsSize, refl, tt)

packet-Holds : Holds packet (order ∷ []) (1 ∷ 2 ∷ [])
unfolding build_packet build_order_executed
packet-Holds = record {
  content = refl;
  whole = refl;
  in_range = omega arith;
  more_bytes = omega arith;
}

packet-IsReadable : IsReadable packet
unfolding build_packet build_order_executed
packet-IsReadable = omega arith

abbrev filled : NormalizedMessage
filled = record blank {
  type = MessageKind.order_execute;
  instrument_id = 7;
  order_id = 42;
  quantity = 100;
  timestamp = 5;
  local_timestamp = 77;
  sequence = 1;
}

parse_round-sent_example :
    (e' : CoreEngine ItchParser (List NormalizedMessage)) × (parse_round itch_parser log_subscriber
        engine null_view
        (blank ∷ [])
        100
        130
        (λ i. 120)
      ≡ some (e', view_of 6 packet, filled ∷ []))
    × Ready 3 e'.dispatcher.subscribers e'.dispatcher.queues
    × (mailboxes e'.dispatcher.subscribers e'.dispatcher.queues ≡ ([], filled ∷ []) ∷ [])
    × (e'.dispatcher.stats.packets_dropped % 2 ^ 64 ≡ 0 % 2 ^ 64)
    × (e'.stats.messages_parsed ≡ 1)
unfolding fill append_all init distance
parse_round-sent_example =
    parse_round-sent log_subscriber engine null_view (blank ∷ []) 100 130 (λ i. 120) 3
      Parser.initial packet [] (order ∷ []) (1 ∷ 2 ∷ []) queue-IsValid refl refl packet-Holds
      (omega arith) (omega arith) queue-Ready (omega arith)

parse_round-packet_example :
    (r : Parsed ItchParser) × (parse Parser.initial (view_of 6 packet) (blank ∷ []) 1 ≡ some r)
    × (parse_round itch_parser log_subscriber engine null_view (blank ∷ []) 100 130 (λ i. 120)
        ≡ some (
          after_packet itch_parser log_subscriber engine null_view
              (blank ∷ [])
              100
              130
              (λ i. 120)
              queue-IsValid
              r,
          view_of 6 packet,
          r.1,
        ))
    × (contents
          (after_packet itch_parser log_subscriber engine null_view
            (blank ∷ [])
            100
            130
            (λ i. 120)
            queue-IsValid
            r).receiver.packet_queue
        ≡ [])
    × ((after_packet itch_parser log_subscriber engine null_view
          (blank ∷ [])
          100
          130
          (λ i. 120)
          queue-IsValid
          r).receiver.sequence
        ≡ 7)
unfolding distance
parse_round-packet_example =
    parse_round-packet itch_parser log_subscriber engine null_view (blank ∷ []) 100 130 (λ i. 120)
      queue-IsValid packet [] Parser.initial itch_parser-IsParser refl packet-IsReadable refl

-- While it stops, the engine receives one more packet.
abbrev joins : Joins ItchParser (List NormalizedMessage)
joins = record {
  parse_joined = λ e. some e;
  dispatch_joined = λ d. some d;
  packet = empty_packet;
  receive_rounds = some ((some (1 ∷ 2 ∷ []), 5) ∷ []);
}

abbrev at_start :
    CoreEngine ItchParser (List NormalizedMessage) → Threads ItchParser (List NormalizedMessage)
at_start e = begin e empty_packet null_view (blank ∷ []) blank

-- The threads of the engine have received a packet.
abbrev busy : Threads ItchParser (List NormalizedMessage)
busy = receive (at_start (started itch_parser log_subscriber engine)) (some (3 ∷ [])) 9

joins-Return : Return itch_parser log_subscriber joins busy.engine
unfolding begin receive
joins-Return = record {
  joined = record busy.engine { running = false };
  parse_returns = refl;
  made = (
    at_start (record busy.engine { running = false }),
    at_start (record busy.engine { running = false }),
    refl,
    refl,
    here,
  );
  dispatcher = record busy.engine.dispatcher { running = false };
  dispatch_returns = refl;
  still_stopped = refl;
}

start-stop_example :
    (start itch_parser log_subscriber engine ≡ ok (started itch_parser log_subscriber engine))
    × IsLocked itch_parser log_subscriber busy.engine
    × Stops itch_parser log_subscriber joins.receive_rounds
        (pos 3)
        joins-Return.joined
        joins-Return.dispatcher
        (stop itch_parser log_subscriber busy.engine joins)
unfolding begin
start-stop_example =
    start-stop itch_parser log_subscriber 3 engine
      (at_start (started itch_parser log_subscriber engine)) busy joins joins-Return
      (record {
        stopped = refl;
        receiver_stopped = refl;
        dispatcher_stopped = refl;
        open_socket = refl;
        parser = Parser.initial;
        configured = refl;
      })
      refl (next here (receives (some (3 ∷ [])) 9 (omega arith)))

-- The same engine with nothing queued.
abbrev waiting : CoreEngine ItchParser (List NormalizedMessage)
waiting = record engine { receiver = record engine.receiver { packet_queue = init 4 empty_packet } }

abbrev orders : List Sent
orders = order ∷ executed 8 2 6 43 50 10 ∷ []

datagram_reaches_subscribers_example :
    (e' : CoreEngine ItchParser (List NormalizedMessage)) × (view : MessageView) × (slots' : List
      NormalizedMessage)
    × (parse_round itch_parser log_subscriber
          (received log_subscriber waiting empty_packet null_view
            (blank ∷ blank ∷ [])
            77
            100
            130
            (λ i. 120)
            blank
            orders)
          null_view
          (blank ∷ blank ∷ [])
          100
          130
          (λ i. 120)
        ≡ some (e', view, slots'))
    × (d : Dispatcher (List NormalizedMessage)) × (msg' : NormalizedMessage) × (active : Bool)
    × (dispatch_round log_subscriber e'.dispatcher blank ≡ some (d, msg', active))
    × (mailboxes d.subscribers d.queues
        ≡ (
          record filled {
            instrument_id = 8;
            order_id = 43;
            quantity = 50;
            timestamp = 6;
            sequence = 2;
          }
              ∷ filled
              ∷ [],
          [],
        )
          ∷ [])
unfolding fill append_all init distance deliver deliver_all capacity build_packet
    build_order_executed
datagram_reaches_subscribers_example =
    datagram_reaches_subscribers log_subscriber waiting empty_packet null_view (blank ∷ blank ∷ [])
      77 100 130 (λ i. 120) blank 3 Parser.initial orders (init-IsValid empty_packet four-IsSize)
      refl (omega arith) tt refl (omega arith) (omega arith) (omega arith) (omega arith) queue-Ready
      (omega arith)
