-- ===== src/Examples/Mains/Run.antt =====
-- The whole `main`s of the examples, from the set-up to the exit.
use winter_square.Common.{
  ℕ, suc, ◌+◌, ◌%◌, ◌/◌, ◌≡◌, refl, ap, Bool, true, false, List, [], ◌∷◌, ◌++◌, Option, none, some,
  ltb, if◌then◌else◌, arith, length, ==-yes, ==-no, ℕ_discrete,
}
use winter_square.Core.Types.{MessageView, NormalizedMessage}
use winter_square.Core.Receiver.{Packet, SocketAnswers}
use winter_square.Core.Engine
use winter_square.Core.Engine.{CoreEngine, Joins}
use winter_square.Core.Engine.Lifecycle.{Return, Stops, stop-Stops}
use winter_square.Core.Statistics.{avg_latency_ns}
use winter_square.Core.Engine.Threads.{Threads, begin}
use winter_square.Core.Engine.Threads.Steps.{Reach}
use winter_square.Core.Engine.Threads.Socket.{IsOpen, Reach-IsOpen}
use winter_square.Examples.Mains.{
  AnyParser, any_parser, AnySubscriber, any_subscriber, Launch, runs, basic_main, itch50_main,
}
use winter_square.Examples.Mains.Exit.{
  Line, final, Outcome, exits, waits_forever, ended, figures, basic_wait, itch50_wait, leave,
  whole_main,
}
use winter_square.Examples.Mains.SetUp.{cannot_open, opened, Ends, mains_launch}

module _ (clock : ℕ → ℕ) where
  -- An engine that threads have made of the one that was launched.
  -- When it is stopped, the parser's and the dispatcher's threads end.
  abbrev pub Worked :
      Launch clock → CoreEngine AnyParser AnySubscriber → Joins AnyParser AnySubscriber → Type 0
  Worked l last joins =
      (e : CoreEngine AnyParser AnySubscriber)
      → l ≡ runs e
      → (packet : Packet) × (raw_packet : MessageView) × (messages : List NormalizedMessage)
        × (msg : NormalizedMessage) × (s : Threads AnyParser AnySubscriber) × Reach any_parser
            (any_subscriber clock) (begin e packet raw_packet messages msg) s
        × (last ≡ s.engine)
        × Return any_parser (any_subscriber clock) joins last

module _ {Double : Type 0} (to_double : ℕ → Double) (divide : Double → Double → Double)
    (zero_double : Double) (clock : ℕ → ℕ) where
  -- One line a second, or one every ten.
  length-basic_wait :
      (es : List (CoreEngine AnyParser AnySubscriber))
      → length (basic_wait to_double divide zero_double clock es) ≡ length es
  unfolding basic_wait
  length-basic_wait [] = refl
  length-basic_wait (e ∷ es) = ap suc (length-basic_wait es)

  length-itch50_wait :
      (counter : ℕ) (es : List (CoreEngine AnyParser AnySubscriber))
      → counter / 10 + length (itch50_wait to_double divide zero_double clock counter es)
        ≡ (counter + length es) / 10
  unfolding itch50_wait
  length-itch50_wait counter [] = omega arith
  length-itch50_wait counter (e ∷ es) =
      let rest = length-itch50_wait (counter + 1) es in
      elim (ℕ_discrete ((counter + 1) % 10) 0) [
        | yes tenth ↦ rw (==-yes tenth) (omega (arith, rest, tenth))
        | no other ↦ rw (==-no other) (omega (arith, rest, other))
      ]

  -- The block at the end: the receiver's and the dispatcher's counters, and the engine's own.
  abbrev pub last_line : CoreEngine AnyParser AnySubscriber → Line Double
  last_line e =
      final
        (record {
          packets_received = e.receiver.stats.packets_received;
          messages_parsed = e.stats.messages_parsed;
          messages_dispatched = e.dispatcher.stats.messages_dispatched;
          packets_dropped = e.receiver.stats.packets_dropped;
          parse_errors = e.stats.parse_errors;
          average =
              if ltb 0 e.dispatcher.stats.messages_dispatched
              then divide (to_double e.stats.total_latency_ns)
                  (to_double e.dispatcher.stats.messages_dispatched)
              else zero_double;
        })
        e.stats.min_latency_ns e.stats.max_latency_ns

  -- How a `main` leaves an engine that it runs, given what the receiver's thread still does.
  abbrev pub Leaves :
      Option (List (Option (List ℕ) × ℕ))
      → SocketAnswers
      → List (Line Double)
      → CoreEngine AnyParser AnySubscriber
      → Joins AnyParser AnySubscriber
      → Outcome Double
      → Type 0
  Leaves none answers lines last joins r = r ≡ waits_forever
  Leaves (some rounds) answers lines last joins r =
      (e : CoreEngine AnyParser AnySubscriber) × (Engine.stop any_parser (any_subscriber clock) last
          joins
        ≡ some (e, answers.socket_answer ∷ []))
      × (r
          ≡ exits (record {
            code = 0;
            lines = lines ++ last_line e ∷ [];
            closed = answers.socket_answer ∷ [];
          }))

  -- How a `main` ends.
  abbrev pub Exits :
      Bool
      → SocketAnswers
      → List (Line Double)
      → CoreEngine AnyParser AnySubscriber
      → Joins AnyParser AnySubscriber
      → Outcome Double
      → Type 0
  Exits true answers lines last joins r =
      r ≡ exits (record { code = 1; lines = []; closed = opened clock answers })
  Exits false answers lines last joins r = Leaves joins.receive_rounds answers lines last joins r

  leave-Leaves :
      (answers : SocketAnswers) (lines : List (Line Double))
      (last : CoreEngine AnyParser AnySubscriber) (joins : Joins AnyParser AnySubscriber)
      (returns : Return any_parser (any_subscriber clock) joins last)
      (rounds : Option (List (Option (List ℕ) × ℕ)))
      → Stops any_parser
          (any_subscriber clock)
          rounds
          answers.socket_answer
          returns.joined
          returns.dispatcher
          (Engine.stop any_parser (any_subscriber clock) last joins)
      → Leaves rounds answers lines last joins (
          ended to_double divide zero_double clock
            (leave to_double divide zero_double clock lines last joins))
  unfolding leave figures avg_latency_ns Engine.get_stats
  leave-Leaves answers lines last joins returns none never = rw never refl
  leave-Leaves answers lines last joins returns (some rounds) (e, stops, left) =
      (e, stops, rw stops refl)

  whole_main-Exits :
      (parser : AnyParser) (subscribers : List AnySubscriber) {l : Launch clock} (b : Bool)
      (answers : SocketAnswers)
      (wait : List (CoreEngine AnyParser AnySubscriber) → List (Line Double))
      (seconds : List (CoreEngine AnyParser AnySubscriber))
      (last : CoreEngine AnyParser AnySubscriber) (joins : Joins AnyParser AnySubscriber)
      → Ends clock b answers parser subscribers l
      → Worked clock l last joins
      → Exits b answers
          (wait seconds)
          last
          joins
          (whole_main to_double divide zero_double clock l wait seconds last joins)
  unfolding whole_main begin
  whole_main-Exits parser subscribers true answers wait seconds last joins ends worked =
      rw ends refl
  whole_main-Exits parser subscribers false answers wait seconds last joins ends worked =
      let (packet, raw_packet, messages, msg, s, r, same, returns) =
        worked ends.engine ends.running in
      let still : IsOpen true answers.socket_answer last = rw same (
        Reach-IsOpen any_parser (any_subscriber clock) true answers.socket_answer r
          ends.socket_open) in
      rw ends.running (
        leave-Leaves answers (wait seconds) last joins returns joins.receive_rounds (
          stop-Stops any_parser (any_subscriber clock) answers.socket_answer last joins returns
            ends.valid_socket still))

  -- When `socket`, `bind` or the `setsockopt` that joins the group fails, both `main`s exit with code
  -- 1 and print no statistics, and they have closed the socket, once, if there was one. Otherwise,
  -- whatever the engine's threads do to the engine until its stop, if the parser's and the
  -- dispatcher's threads then end: neither `main` ends when the receiver's thread stays in
  -- `recvfrom`; otherwise both exit with code 0 and have closed the socket, once, and at the end they
  -- print the packets received, the messages parsed, the messages dispatched, the
  -- packets dropped, the parse errors, the average, the least and the greatest latency of the engine
  -- that the stop leaves. Until then the basic example prints a line each second, and the ITCH
  -- example one every ten.
  pub mains_exit :
      (instrument_filter : ℕ) (answers : SocketAnswers)
      (seconds : List (CoreEngine AnyParser AnySubscriber))
      (basic_last itch50_last : CoreEngine AnyParser AnySubscriber)
      (basic_joins itch50_joins : Joins AnyParser AnySubscriber)
      → Worked clock (basic_main clock answers) basic_last basic_joins
      → Worked clock (itch50_main clock instrument_filter answers) itch50_last itch50_joins
      → let basic_lines = basic_wait to_double divide zero_double clock in
        let itch50_lines = itch50_wait to_double divide zero_double clock 0 in
        Exits (cannot_open clock answers) answers (basic_lines seconds) basic_last basic_joins (
          whole_main to_double divide zero_double clock
            (basic_main clock answers)
            basic_lines
            seconds
            basic_last
            basic_joins)
        × Exits
            (cannot_open clock answers)
            answers
            (itch50_lines seconds)
            itch50_last
            itch50_joins
            (whole_main to_double divide zero_double clock
              (itch50_main clock instrument_filter answers)
              itch50_lines
              seconds
              itch50_last
              itch50_joins)
        × (length (basic_lines seconds) ≡ length seconds)
        × (length (itch50_lines seconds) ≡ length seconds / 10)
  mains_exit instrument_filter answers seconds basic_last itch50_last basic_joins itch50_joins
        basic_worked itch50_worked =
      let (basic, itch50) = mains_launch clock instrument_filter answers in
      (
        whole_main-Exits _ _ (cannot_open clock answers) answers
            (basic_wait to_double divide zero_double clock) seconds basic_last basic_joins basic
            basic_worked,
        whole_main-Exits _ _ (cannot_open clock answers) answers
            (itch50_wait to_double divide zero_double clock 0) seconds itch50_last itch50_joins
            itch50 itch50_worked,
        length-basic_wait seconds,
        omega (arith, length-itch50_wait 0 seconds),
      )
