-- ===== src/Tests/Mains.antt =====
-- The `main`s of the examples on concrete inputs: sockets that open, and an engine that stops after
-- one second in which nothing arrived.
use winter_square.Common.{ℕ, ◌*◌, ◌/◌, ◌≡◌, false, refl, [], ◌∷◌, some, length}
use winter_square.Common.Int.{pos}
use winter_square.Core.Types.{null_view, blank}
use winter_square.Core.Receiver.{SocketAnswers, blank_packet}
use winter_square.Core.Engine.{CoreEngine, Joins}
use winter_square.Core.Engine.Threads.{begin}
use winter_square.Core.Engine.Threads.Steps.{here}
use winter_square.Itch.Parser.{initial}
use winter_square.Examples.OrderBook
use winter_square.Examples.Printer
use winter_square.Examples.Totals
use winter_square.Examples.Mains.{
  AnyParser, echo, itch, AnySubscriber, printer, order_book, totals, Launch, runs, basic_main,
  itch50_main,
}
use winter_square.Examples.Mains.Exit.{basic_wait, itch50_wait, whole_main}
use winter_square.Examples.Mains.SetUp.{IsLaunched, mains_launch}
use winter_square.Examples.Mains.Run.{Worked, Exits, mains_exit}

abbrev clock : ℕ → ℕ
clock n = n * 1000000000

abbrev answers : SocketAnswers
answers = record { socket_answer = pos 3; bind_answer = pos 0; join_answer = pos 0 }

abbrev basic_launched :
    IsLaunched clock answers (echo 0) (printer Printer.fresh ∷ []) (basic_main clock answers)
basic_launched = (mains_launch clock 7 answers).0

abbrev itch50_launched :
    IsLaunched clock answers
      (itch initial)
      (order_book (OrderBook.fresh 7) ∷ totals (Totals.fresh clock) ∷ [])
      (itch50_main clock 7 answers)
itch50_launched = (mains_launch clock 7 answers).1

-- While it stops, the engine receives one more packet.
abbrev joins : Joins AnyParser AnySubscriber
joins = record {
  parse_joined = λ e. some e;
  dispatch_joined = λ d. some d;
  packet = blank_packet;
  receive_rounds = some ((some (1 ∷ 2 ∷ []), 5) ∷ []);
}

-- An engine whose threads have done nothing.
launched-Worked :
    {l : Launch clock} (e : CoreEngine AnyParser AnySubscriber)
    → l ≡ runs e
    → Worked clock l e joins
unfolding begin
launched-Worked e running e' same = (
  blank_packet,
  null_view,
  [],
  blank,
  _,
  here,
  cc,
  record {
    joined = record e { running = false };
    parse_returns = refl;
    made = (
      begin (record e { running = false }) blank_packet null_view [] blank,
      begin (record e { running = false }) blank_packet null_view [] blank,
      refl,
      refl,
      here,
    );
    dispatcher = record e.dispatcher { running = false };
    dispatch_returns = refl;
    still_stopped = refl;
  },
)

mains_exit_example :
    Exits
      (λ n. n)
      (λ a b. a / b)
      0
      clock
      false
      answers
      (basic_wait (λ n. n) (λ a b. a / b) 0 clock (basic_launched.engine ∷ []))
      basic_launched.engine
      joins
      (whole_main
        (λ n. n)
        (λ a b. a / b)
        0
        clock
        (basic_main clock answers)
        (basic_wait (λ n. n) (λ a b. a / b) 0 clock)
        (basic_launched.engine ∷ [])
        basic_launched.engine
        joins)
    × Exits
        (λ n. n)
        (λ a b. a / b)
        0
        clock
        false
        answers
        (itch50_wait (λ n. n) (λ a b. a / b) 0 clock 0 (basic_launched.engine ∷ []))
        itch50_launched.engine
        joins
        (whole_main
          (λ n. n)
          (λ a b. a / b)
          0
          clock
          (itch50_main clock 7 answers)
          (itch50_wait (λ n. n) (λ a b. a / b) 0 clock 0)
          (basic_launched.engine ∷ [])
          itch50_launched.engine
          joins)
    × (length (basic_wait (λ n. n) (λ a b. a / b) 0 clock (basic_launched.engine ∷ [])) ≡ 1)
    × (length (itch50_wait (λ n. n) (λ a b. a / b) 0 clock 0 (basic_launched.engine ∷ [])) ≡ 1 / 10)
mains_exit_example =
    mains_exit (λ n. n) (λ a b. a / b) 0 clock 7 answers (basic_launched.engine ∷ [])
      basic_launched.engine itch50_launched.engine joins joins
      (launched-Worked basic_launched.engine basic_launched.running)
      (launched-Worked itch50_launched.engine itch50_launched.running)
