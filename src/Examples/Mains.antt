-- ===== src/Examples/Mains.antt =====
-- `main` of examples/basic_example.cpp and examples/itch50_example.cpp: how they set the engine up and
-- start it. What follows the start is in Exit. Titles, signals and the configuration of
-- the network are left out.
pub mod SetUp
pub mod Exit
pub mod Run
use winter_square.Common.{
  ℕ, ◌≡◌, refl, ap, ◌∙◌, Bool, true, false, not, ◌||◌, List, [], ◌∷◌, map, Option, none, some,
  if◌then◌else◌, Bool-cases, inl, inr,
}
use winter_square.Common.Int.{ℤ}
use winter_square.Core.Types.{MessageView, NormalizedMessage, packet_ring_size, default_queue_size}
use winter_square.Core.Statistics.{Statistics}
use winter_square.Core.Parser.{Parser, Parsed, echo_parse, echo_stats}
use winter_square.Core.Subscriber.{Subscriber}
use winter_square.Core.Dispatcher
use winter_square.Core.Receiver
use winter_square.Core.Receiver.{SocketAnswers, is_negative}
use winter_square.Core.Engine
use winter_square.Core.Engine.{CoreEngine, EngineError, Result, ok, thrown}
use winter_square.Core.Engine.Lifecycle.{IsLocked}
use winter_square.Itch.Parser.{ItchParser, initial, itch_parser}
use winter_square.Examples.OrderBook
use winter_square.Examples.Printer
use winter_square.Examples.Totals

-- The parsers behind `IParser` in these programs.
pub data AnyParser : Type 0 where
  echo : ℕ → AnyParser
  itch : ItchParser → AnyParser

abbrev pub wrap : {P : Type 0} → (P → AnyParser) → Option (Parsed P) → Option (Parsed AnyParser)
wrap c none = none
wrap c (some (n, output, p)) = some (n, output, c p)

unfoldable pub parse :
    AnyParser → MessageView → List NormalizedMessage → ℕ → Option (Parsed AnyParser)
parse (echo n) view output limit = wrap echo (echo_parse n view output limit)
parse (itch s) view output limit = wrap itch (itch_parser.parse s view output limit)

unfoldable pub reset : AnyParser → AnyParser
reset (echo n) = echo n
reset (itch s) = itch (itch_parser.reset s)

unfoldable pub parser_stats : AnyParser → Statistics → Statistics
parser_stats (echo n) stats = echo_stats n stats
parser_stats (itch s) stats = itch_parser.get_stats s stats

abbrev pub any_parser : Parser AnyParser
any_parser = record { parse = parse; initialize = λ p. p; reset = reset; get_stats = parser_stats }

-- The subscribers behind `ISubscriber`.
pub data AnySubscriber : Type 0 where
  printer : Printer.Printer → AnySubscriber
  order_book : OrderBook.OrderBook → AnySubscriber
  totals : Totals.Totals → AnySubscriber

module _ (clock : ℕ → ℕ) where
  unfoldable pub on_message : AnySubscriber → NormalizedMessage → Bool × AnySubscriber
  on_message (printer p) msg = let (stay, p') = Printer.on_message p msg in (stay, printer p')
  on_message (order_book b) msg =
      let (stay, b') = OrderBook.on_message b msg in (stay, order_book b')
  on_message (totals t) msg = let (stay, t') = Totals.on_message clock t msg in (stay, totals t')

  unfoldable pub shutdown : AnySubscriber → AnySubscriber
  shutdown (printer p) = printer (Printer.shutdown p)
  shutdown (order_book b) = order_book (OrderBook.shutdown b)
  shutdown (totals t) = totals t

  abbrev pub any_subscriber : Subscriber AnySubscriber
  any_subscriber = record { on_message = on_message; initialize = λ s. s; shutdown = shutdown }

  -- How a `main` leaves its setup: with exit code 1 and the descriptors closed, with an exception that nothing catches, or with a
  -- running engine.
  pub data Launch : Type 0 where
    exit_one : List ℤ → Launch
    uncaught : EngineError → Launch
    runs : CoreEngine AnyParser AnySubscriber → Launch

  infixl 5 ◌>>=◌
  abbrev ◌>>=◌ :
      Result (CoreEngine AnyParser AnySubscriber)
      → (CoreEngine AnyParser AnySubscriber → Launch)
      → Launch
  ok e >>= f = f e
  thrown x >>= f = uncaught x

  -- `if (!engine.initialize()) return 1; engine.start();`
  unfoldable pub launch : SocketAnswers → CoreEngine AnyParser AnySubscriber → Launch
  launch answers e =
      let (opened, e', closed) = Engine.initialize any_parser any_subscriber e answers in
      if not opened then exit_one closed else (Engine.start any_parser any_subscriber e' >>= runs)

  -- An engine with its default parser.
  unfoldable pub default_engine : ℕ → CoreEngine AnyParser AnySubscriber
  default_engine max_messages = Engine.fresh AnySubscriber packet_ring_size max_messages (echo 0)

  abbrev add :
      AnySubscriber
      → CoreEngine AnyParser AnySubscriber
      → Result (CoreEngine AnyParser AnySubscriber)
  add s e = Engine.add_subscriber any_parser any_subscriber default_queue_size e s

  unfoldable pub basic_main : SocketAnswers → Launch
  unfolding default_engine
  basic_main answers = do e ← add (printer Printer.fresh) (default_engine 16); launch answers e

  unfoldable pub itch50_main : ℕ → SocketAnswers → Launch
  unfolding default_engine
  itch50_main instrument_filter answers = do
    e ← Engine.set_parser any_parser any_subscriber (default_engine 100) (some (itch initial))
    e' ← add (order_book (OrderBook.fresh instrument_filter)) e
    e'' ← add (totals (Totals.fresh clock)) e'
    launch answers e''
