-- ===== src/Examples/Mains/Exit.antt =====
-- How the `main`s of examples/basic_example.cpp and examples/itch50_example.cpp go on after the start:
-- the lines that they print while they wait, the stop, and the exit.
use winter_square.Common.{
  ℕ, ◌+◌, ◌%◌, List, [], ◌∷◌, ◌++◌, Option, none, some, ◌>>=◌, ◌==◌, if◌then◌else◌,
}
use winter_square.Common.Int.{ℤ}
use winter_square.Core.Statistics.{Statistics, avg_latency_ns}
use winter_square.Core.Engine
use winter_square.Core.Engine.{CoreEngine, Joins, EngineError}
use winter_square.Examples.Mains.{
  AnyParser, any_parser, AnySubscriber, any_subscriber, Launch, exit_one, uncaught, runs,
}

-- What a line of statistics shows: the counters, and the average latency, a `double`.
pub record Figures (Double : Type 0) : Type 0 where
  pub packets_received : ℕ
  pub messages_parsed : ℕ
  pub messages_dispatched : ℕ
  pub packets_dropped : ℕ
  pub parse_errors : ℕ
  pub average : Double

-- `final` is the block at the end, with the least and the greatest latency.
pub data Line (Double : Type 0) : Type 0 where
  second : Figures Double → Line Double
  final : Figures Double → (min_latency max_latency : ℕ) → Line Double

-- The exit code of a `main`, what it printed of the statistics, and the descriptors that it closed.
pub record Exit (Double : Type 0) : Type 0 where
  pub code : ℕ
  pub lines : List (Line Double)
  pub closed : List ℤ

-- A `main` exits, ends with an exception that nothing catches, or does not return from a `join`.
pub data Outcome (Double : Type 0) : Type 0 where
  exits : Exit Double → Outcome Double
  throws : EngineError → Outcome Double
  waits_forever : Outcome Double

abbrev pub stats_of : (ℕ → ℕ) → CoreEngine AnyParser AnySubscriber → Statistics
stats_of clock = Engine.get_stats any_parser (any_subscriber clock)

module _ {Double : Type 0} (to_double : ℕ → Double) (divide : Double → Double → Double)
    (zero_double : Double) (clock : ℕ → ℕ) where
  unfoldable pub figures : Statistics → Figures Double
  figures stats = record {
    packets_received = stats.packets_received;
    messages_parsed = stats.messages_parsed;
    messages_dispatched = stats.messages_dispatched;
    packets_dropped = stats.packets_dropped;
    parse_errors = stats.parse_errors;
    average = avg_latency_ns to_double divide zero_double stats;
  }

  -- The loop while `running`, on the engine as it is after each `sleep_for`.
  unfoldable pub basic_wait : List (CoreEngine AnyParser AnySubscriber) → List (Line Double)
  basic_wait [] = []
  basic_wait (e ∷ es) = second (figures (stats_of clock e)) ∷ basic_wait es

  -- With the `static int counter`.
  unfoldable pub itch50_wait : ℕ → List (CoreEngine AnyParser AnySubscriber) → List (Line Double)
  itch50_wait counter [] = []
  itch50_wait counter (e ∷ es) =
      let rest = itch50_wait (counter + 1) es in
      if (counter + 1) % 10 == 0 then second (figures (stats_of clock e)) ∷ rest else rest

  -- The end of a `main` after its loop, on the engine as its threads have left it; `none` is a stop
  -- that does not return.
  unfoldable pub leave :
      List (Line Double)
      → CoreEngine AnyParser AnySubscriber
      → Joins AnyParser AnySubscriber
      → Option (Exit Double)
  leave lines last joins = do
    (e, closed) ← Engine.stop any_parser (any_subscriber clock) last joins
    let stats = stats_of clock e
    some (record {
      code = 0;
      lines = lines ++ final (figures stats) stats.min_latency_ns stats.max_latency_ns ∷ [];
      closed = closed;
    })

  -- How a `main` that runs an engine ends.
  abbrev pub ended : Option (Exit Double) → Outcome Double
  ended none = waits_forever
  ended (some exit) = exits exit

  -- A whole `main` from its launch, given how it waits.
  unfoldable pub whole_main :
      Launch clock
      → (List (CoreEngine AnyParser AnySubscriber) → List (Line Double))
      → List (CoreEngine AnyParser AnySubscriber)
      → CoreEngine AnyParser AnySubscriber
      → Joins AnyParser AnySubscriber
      → Outcome Double
  unfolding leave
  whole_main (exit_one closed) wait seconds last joins =
      exits (record { code = 1; lines = []; closed = closed })
  whole_main (uncaught x) wait seconds last joins = throws x
  whole_main (runs e) wait seconds last joins = ended (leave (wait seconds) last joins)
