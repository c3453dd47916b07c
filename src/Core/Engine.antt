-- ===== src/Core/Engine.antt =====
-- `CoreEngine` of core/core_engine.hpp, over any parser and any subscribers. Threads are started and
-- joined by `start` and `stop`; the bodies of their loops are `parse_round` here, `dispatch_round` of
-- the dispatcher and `receive_round` of the receiver.
pub mod Round
pub mod Joined
pub mod Lifecycle
pub mod Threads
use winter_square.Common.{
  ℕ, zero, suc, ◌+◌, Bool, true, false, not, List, [], ◌∷◌, Option, none, some, if◌then◌else◌, ◌==◌,
  length, get_elem?, ◌>>=◌,
}
use winter_square.Common.Word.{add_u64, sub_u64}
use winter_square.Common.Int.{ℤ}
use winter_square.Core.Types.{MessageView, NormalizedMessage}
use winter_square.Core.Statistics.{Statistics, update_latency}
use winter_square.Core.Statistics
use winter_square.Core.Parser.{Parser}
use winter_square.Core.Subscriber.{Subscriber}
use winter_square.Core.Dispatcher
use winter_square.Core.Dispatcher.{Dispatcher}
use winter_square.Core.Receiver
use winter_square.Core.Receiver.{Packet, UdpReceiver, SocketAnswers}

-- `parser` is `none` for a null pointer.
pub record CoreEngine (P S : Type 0) : Type 0 where
  pub max_messages_per_packet : ℕ
  pub receiver : UdpReceiver
  pub dispatcher : Dispatcher S
  pub parser : Option P
  pub running : Bool
  pub stats : Statistics

-- The constructor, which is given the parser that it sets by default; `ring_size` is that of the
-- receiver's queue.
unfoldable pub fresh : {P : Type 0} (S : Type 0) → ℕ → ℕ → P → CoreEngine P S
fresh S ring_size max_messages_per_packet echo = record {
  max_messages_per_packet = max_messages_per_packet;
  receiver = Receiver.fresh ring_size;
  dispatcher = Dispatcher.fresh S;
  parser = some echo;
  running = false;
  stats = Statistics.initial;
}

-- What the threads do while a `stop` waits for them: what they make of the engine until the parser's
-- thread is joined, what the dispatcher's thread then makes of the dispatcher, and the last rounds of
-- the receiver's, with its local `packet`. `none` is a `join` that does not return.
pub record Joins (P S : Type 0) : Type 0 where
  pub parse_joined : CoreEngine P S → Option (CoreEngine P S)
  pub dispatch_joined : Dispatcher S → Option (Dispatcher S)
  pub packet : Packet
  pub receive_rounds : Option (List (Option (List ℕ) × ℕ))

-- The messages of the `std::runtime_error`s.
pub data EngineError : Type 0 where
  cannot_change_parser cannot_add_subscriber no_parser_configured : EngineError

pub data Result (A : Type 0) : Type 0 where
  ok : A → Result A
  thrown : EngineError → Result A

module _ {P S : Type 0} (parser_ops : Parser P) (subscriber_ops : Subscriber S) where
  unfoldable pub set_parser : CoreEngine P S → Option P → Result (CoreEngine P S)
  set_parser e parser =
      if e.running then thrown cannot_change_parser else ok (record e { parser = parser })

  unfoldable pub add_subscriber : ℕ → CoreEngine P S → S → Result (CoreEngine P S)
  add_subscriber queue_size e subscriber =
      if e.running
      then thrown cannot_add_subscriber
      else ok (record e {
        dispatcher = Dispatcher.add_subscriber subscriber_ops queue_size e.dispatcher subscriber;
      })

  abbrev pub on_parser : (P → P) → Option P → Option P
  on_parser f none = none
  on_parser f (some p) = some (f p)

  unfoldable pub initialize : CoreEngine P S → SocketAnswers → Bool × CoreEngine P S × List ℤ
  initialize e answers =
      let (opened, receiver, closed) = Receiver.initialize e.receiver answers in
      if not opened then (false, record e { receiver = receiver }, closed) else (
        true,
        record e { receiver = receiver; parser = on_parser parser_ops.initialize e.parser },
        closed,
      )

  abbrev has_parser : Option P → Bool
  has_parser none = false
  has_parser (some _) = true

  unfoldable pub start : CoreEngine P S → Result (CoreEngine P S)
  start e =
      if e.running
      then ok e
      else (if not (has_parser e.parser)
          then thrown no_parser_configured
          else ok (record e {
            running = true;
            receiver = Receiver.start e.receiver;
            dispatcher = Dispatcher.start subscriber_ops e.dispatcher;
          }))

  -- The receiver's thread goes on until `receiver_.stop()`, so that the packets that it receives
  -- while the dispatcher stops are among its last rounds.
  unfoldable pub stop : CoreEngine P S → Joins P S → Option (CoreEngine P S × List ℤ)
  stop e joins = if not e.running then some (e, []) else (do
    joined ← joins.parse_joined (record e { running = false })
    dispatcher ← Dispatcher.stop subscriber_ops joined.dispatcher joins.dispatch_joined
    (receiver, closed) ← Receiver.stop joined.receiver joins.packet joins.receive_rounds
    some (
      record joined {
        receiver = receiver;
        dispatcher = dispatcher;
        parser = on_parser parser_ops.reset joined.parser;
      },
      closed,
    ))

  unfoldable pub get_stats : CoreEngine P S → Statistics
  get_stats e = record e.stats {
    packets_received = e.receiver.stats.packets_received;
    packets_dropped = e.receiver.stats.packets_dropped;
    messages_dispatched = e.dispatcher.stats.messages_dispatched;
  }

  -- `for (i = 0; i < count; ++i) dispatcher_.dispatch(messages[i])`, on the rounds left; `clock i` is
  -- what the `i`th call of `get_timestamp` returns, and `none` is an index outside `messages`.
  unfoldable pub dispatch_first :
      (ℕ → ℕ) → ℕ → ℕ → List NormalizedMessage → Dispatcher S → Option (Dispatcher S)
  dispatch_first clock zero i messages d = some d
  dispatch_first clock (suc left) i messages d = do
    msg ← get_elem? messages i
    dispatch_first clock left (i + 1) messages (Dispatcher.dispatch subscriber_ops (clock i) d msg)

  -- The counters after a packet of `count` messages.
  unfoldable pub count_packet : Statistics → ℕ → ℕ → Statistics
  count_packet stats count latency =
      let parsed = record stats { messages_parsed = add_u64 stats.messages_parsed count } in
      let checked : Statistics =
        if count == 0
        then record parsed { parse_errors = add_u64 parsed.parse_errors 1 }
        else parsed in
      update_latency checked latency

  -- The part of `parse_loop` that handles a packet; `none` is also a null `parser_`.
  unfoldable pub handle_packet :
      CoreEngine P S
      → MessageView
      → List NormalizedMessage
      → ℕ
      → ℕ
      → (ℕ → ℕ)
      → Option (CoreEngine P S × List NormalizedMessage)
  unfolding dispatch_first count_packet
  handle_packet e raw_packet messages parse_start parse_end clock = do
    parser ← e.parser
    (count, messages', parser') ← parser_ops.parse parser raw_packet messages (length messages)
    dispatcher ← dispatch_first clock count 0 messages' e.dispatcher
    some (
      record e {
        dispatcher = dispatcher;
        parser = some parser';
        stats = count_packet e.stats count (sub_u64 parse_end parse_start);
      },
      messages',
    )

  -- The body of `parse_loop`, with its local `raw_packet` and `messages`.
  unfoldable pub parse_round :
      CoreEngine P S
      → MessageView
      → List NormalizedMessage
      → ℕ
      → ℕ
      → (ℕ → ℕ)
      → Option (CoreEngine P S × MessageView × List NormalizedMessage)
  unfolding handle_packet
  parse_round e raw_packet messages parse_start parse_end clock =
      let (got, view, receiver) = Receiver.read_packet e.receiver raw_packet in
      let e' = record e { receiver = receiver } in
      if not got then some (e', view, messages) else do
        (e'', messages') ← handle_packet e' view messages parse_start parse_end clock
        some (e'', view, messages')
