-- ===== src/Tests/Interleaving.antt =====
-- The three threads of a running engine (core/core_engine.hpp), interleaved on concrete inputs.
use winter_square.Common.{
  ℕ, ◌+◌, ◌%◌, ◌^◌, ◌<◌, ◌≡◌, refl, true, List, [], ◌∷◌, ◌++◌, some, arith, get_elem?, suc, zero,
  All,
}
use winter_square.Common.Int.{pos}
use winter_square.Core.Types.{NormalizedMessage, null_view, blank, is_valid}
use winter_square.Core.Statistics
use winter_square.Core.Parser.{echo_parser, echo_message, write, echo_parse}
use winter_square.Core.Parser.Law.{test_parsers-IsParser}
use winter_square.Core.Dispatcher.Mailboxes.{MessageQueue}
use winter_square.Core.Dispatcher.Delivery.{deliver}
use winter_square.Core.Receiver.{Packet, receive_round, read_packet}
use winter_square.Core.Receiver.Views.{view_of}
use winter_square.Core.Engine.{CoreEngine, get_stats}
use winter_square.Core.Engine.Round.{IsReadable}
use winter_square.Core.Engine.Threads.{
  posting, engine_thread, Threads, queues, subscribers, begin, arrives, receive, parse_found,
  post_one, count_message, finish_packet, give,
}
use winter_square.Core.Engine.Threads.Steps.{
  Step, receives, parses, dispatches, posts, counts, finishes, gives, Reach, here, next,
}
use winter_square.Core.Engine.Threads.Log.{accepted, asked, pending, Taken, parse_each}
use winter_square.Core.Engine.Threads.Holds.{IsIdle, untaken, taken_by}
use winter_square.Core.Engine.Threads.Delivered.{threads_deliver, threads_deliver_every}
use winter_square.Core.Engine.Threads.Progress.{threads_progress}
use winter_square.Core.Engine.Threads.Counters.{threads_count}
use winter_square.Queue.Spsc.{init, push, pop, next_index}
use winter_square.Queue.Spsc.Ring.{IsSize, static_assert-IsSize, IsValid, init-IsValid, distance}
use winter_square.Queue.Spsc.Refine.{contents}
use mathlib.Core.Option.{some-injective}
use winter_square.Tests.Engine.{log_subscriber, empty_packet}

four-IsSize : IsSize 4
four-IsSize = static_assert-IsSize 4 (omega arith) (omega arith) refl

-- An engine with the default parser and one subscriber, after `start`.
abbrev engine : CoreEngine ℕ (List NormalizedMessage)
engine = record {
  max_messages_per_packet = 1;
  receiver = record {
    running = true;
    socket_fd = pos 3;
    packet_queue = init 4 empty_packet;
    current_packet = empty_packet;
    sequence = 0;
    stats = Statistics.initial;
  };
  dispatcher = record {
    subscribers = [] ∷ [];
    queues = init 4 blank ∷ [];
    running = true;
    stats = Statistics.initial;
  };
  parser = some 0;
  running = true;
  stats = Statistics.initial;
}

engine-IsIdle : IsIdle engine
unfolding init distance
engine-IsIdle = record {
  valid = init-IsValid empty_packet four-IsSize;
  no_packet = refl;
  no_message = only;
  paired = refl;
}
  where
    only :
        (k : ℕ) (q : MessageQueue)
        → get_elem? (init 4 blank ∷ []) k ≡ some q
        → IsValid q × (contents q ≡ [])
    only zero q e = rw (← some-injective _ _ e) (init-IsValid blank four-IsSize, refl)
    only (suc k) q e = cc

abbrev started : Threads ℕ (List NormalizedMessage)
started = begin engine empty_packet null_view (blank ∷ []) blank

abbrev pub packet : Packet
packet = record { content = 1 ∷ 2 ∷ 3 ∷ []; length = 3; timestamp = 50 }

abbrev pub message : NormalizedMessage
message = echo_message (view_of 0 packet)

abbrev pub received : Threads ℕ (List NormalizedMessage)
received = receive started (some (1 ∷ 2 ∷ 3 ∷ [])) 50

abbrev parsed : Threads ℕ (List NormalizedMessage)
parsed = parse_found received 60 1 (message ∷ []) 1

abbrev called : Threads ℕ (List NormalizedMessage)
called = record parsed { place = posting 60 1 0 70 0 }

abbrev posted : Threads ℕ (List NormalizedMessage)
posted = post_one called 60 1 0 70 0 message (init 4 blank)

-- Another datagram arrives before `dispatch` returns.
abbrev overlapped : Threads ℕ (List NormalizedMessage)
overlapped = receive posted (some (9 ∷ [])) 55

posted-Reach : Reach echo_parser log_subscriber started posted
unfolding begin receive arrives receive_round parse_found post_one read_packet init push pop
    echo_parse write is_valid next_index
posted-Reach =
    let more : 0 < 1 = omega arith in
    let arrived = next here (receives (some (1 ∷ 2 ∷ 3 ∷ [])) 50 (omega arith)) in
    let taken = next arrived (parses 60 1 (message ∷ []) 0 1 refl refl refl refl) in
    let begun = next taken (dispatches 60 1 0 70 refl more) in
    next begun (posts 60 1 0 70 0 message (init 4 blank) refl refl refl)

overlapped-Reach : Reach echo_parser log_subscriber started overlapped
overlapped-Reach = next posted-Reach (receives (some (9 ∷ [])) 55 (omega arith))

-- The first message is given to the subscriber, and nothing is left.
abbrev counted : Threads ℕ (List NormalizedMessage)
counted = count_message posted 60 1 0 70 message

abbrev finished : Threads ℕ (List NormalizedMessage)
finished = finish_packet echo_parser log_subscriber counted 60 1 80

abbrev given : Threads ℕ (List NormalizedMessage)
given = give echo_parser log_subscriber finished [] (push (init 4 blank) message).1

given-Reach : Reach echo_parser log_subscriber started given
unfolding begin receive arrives receive_round parse_found post_one count_message finish_packet
    read_packet init push pop next_index
given-Reach =
    let done = next posted-Reach (counts 60 1 0 70 message refl refl) in
    let ended = next done (finishes 60 1 80 refl) in
    next ended (gives [] (push (init 4 blank) message).1 refl refl refl)

buffer-IsReadable : IsReadable empty_packet
buffer-IsReadable = omega arith

threads_deliver_example :
    (accepted overlapped.history.arrived
      ≡ overlapped.history.read ++ contents overlapped.engine.receiver.packet_queue)
    × ((now : ℕ) × (overlapped.engine.parser ≡ some now)
        × (parse_each echo_parser (untaken engine 0 (blank ∷ [])) overlapped.history.read
            ≡ some (taken_by overlapped now)))
    × ((k : ℕ) (q : MessageQueue)
        → get_elem? (queues overlapped) k ≡ some q
        → (asked (overlapped.history.offered k) ++ pending overlapped.place overlapped.messages k
            ≡ overlapped.history.parsed)
          × (accepted (overlapped.history.offered k) ≡ overlapped.history.given k ++ contents q))
    × ((k : ℕ) (subscriber : List NormalizedMessage)
        → get_elem? (subscribers overlapped) k ≡ some subscriber
        → (first : List NormalizedMessage) × (get_elem? engine.dispatcher.subscribers k
            ≡ some first)
          × (subscriber ≡ deliver log_subscriber first (overlapped.history.given k)))
threads_deliver_example =
    threads_deliver echo_parser log_subscriber engine 0 (blank ∷ []) empty_packet null_view blank
      engine-IsIdle refl overlapped-Reach

threads_progress_example :
    (s' : Threads ℕ (List NormalizedMessage)) × Step echo_parser log_subscriber engine_thread
      overlapped s'
threads_progress_example =
    threads_progress echo_parser log_subscriber test_parsers-IsParser.1 engine 0 (blank ∷ [])
      empty_packet null_view blank buffer-IsReadable engine-IsIdle refl overlapped-Reach
      engine_thread

threads_count_example :
    let stats = get_stats echo_parser log_subscriber overlapped.engine in
    (stats.packets_received % 2 ^ 64 ≡ 2)
    × (stats.packets_dropped % 2 ^ 64 ≡ 0)
    × ((stats.messages_parsed + 1) % 2 ^ 64 ≡ 1)
    × ((stats.messages_dispatched + 1) % 2 ^ 64 ≡ 1)
    × (overlapped.engine.dispatcher.stats.packets_dropped % 2 ^ 64 ≡ 0)
unfolding begin receive arrives receive_round parse_found post_one read_packet init push pop
    next_index
threads_count_example =
    threads_count echo_parser log_subscriber test_parsers-IsParser.1 engine 0 (blank ∷ [])
      empty_packet null_view blank buffer-IsReadable engine-IsIdle refl overlapped-Reach

only_queue :
    (k : ℕ) (q : MessageQueue)
    → get_elem? (queues given) k ≡ some q
    → All (λ r. r.1 ≡ true) (given.history.offered k) × (contents q ≡ [])
unfolding begin receive arrives receive_round parse_found post_one count_message finish_packet give
    read_packet init push pop next_index distance
only_queue zero q e = rw (← some-injective _ _ e) ((refl, tt), refl)
only_queue (suc k) q e = cc

threads_deliver_every_example :
    (first : List NormalizedMessage) × (t : Taken ℕ) × (get_elem? engine.dispatcher.subscribers 0
      ≡ some first)
    × (parse_each echo_parser (untaken engine 0 (blank ∷ [])) (packet ∷ []) ≡ some t)
    × (message ∷ [] ≡ deliver log_subscriber first t.parsed)
unfolding begin receive arrives receive_round parse_found post_one count_message finish_packet give
    read_packet init push pop next_index distance
threads_deliver_every_example =
    threads_deliver_every echo_parser log_subscriber engine 0 (blank ∷ []) empty_packet null_view
      blank engine-IsIdle refl given-Reach refl (refl, tt) refl only_queue 0 (message ∷ []) refl
