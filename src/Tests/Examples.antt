-- ===== src/Tests/Examples.antt =====
-- The subscribers and the set-up of the examples (examples/itch50_example.cpp,
-- examples/basic_example.cpp) on concrete inputs.
use winter_square.Common.{ℕ, false, ◌≡◌, List, [], ◌∷◌, ◌++◌, arith, ◌*◌, leb, if◌then◌else◌, ◌-◌}
use winter_square.Common.Int.{pos}
use winter_square.Core.Types.{NormalizedMessage, MessageKind, blank}
use winter_square.Core.Dispatcher.Delivery.{deliver}
use winter_square.Core.Receiver.{SocketAnswers}
use winter_square.Itch.Parser
use winter_square.Examples.Counting.{tally}
use winter_square.Examples.OrderBook
use winter_square.Examples.OrderBook.{order_book_subscriber}
use winter_square.Examples.OrderBook.Counts.{Counted, deliver-fresh}
use winter_square.Examples.OrderBook.Printing.{IsPrinted, deliver-IsPrinted}
use winter_square.Examples.Printer
use winter_square.Examples.Printer.{total_line, print_subscriber}
use winter_square.Examples.Totals
use winter_square.Examples.Totals.{statistics_subscriber, Report, bump}
use winter_square.Examples.Totals.Sums.{count_of, has_kind, last_report, reports_all}
use winter_square.Examples.Mains.{echo, itch, printer, order_book, totals, basic_main, itch50_main}
use winter_square.Examples.Mains.SetUp.{Ends, mains_launch}

abbrev added : NormalizedMessage
added = record blank { type = MessageKind.order_add; instrument_id = 7 }

abbrev trade_elsewhere : NormalizedMessage
trade_elsewhere = record blank { type = MessageKind.trade; instrument_id = 8 }

abbrev messages : List NormalizedMessage
messages = added ∷ trade_elsewhere ∷ added ∷ []

deliver-fresh_example :
    Counted 7
      (OrderBook.fresh 7)
      messages
      (deliver order_book_subscriber (OrderBook.fresh 7) messages)
deliver-fresh_example = deliver-fresh 7 messages

deliver-IsPrinted_example : IsPrinted (deliver order_book_subscriber (OrderBook.fresh 7) messages)
deliver-IsPrinted_example = deliver-IsPrinted 7 messages (omega arith)

-- A second between two calls.
abbrev seconds : ℕ → ℕ
seconds n = n * 1000000000

abbrev counted : Totals.Totals
counted = deliver (statistics_subscriber seconds) (Totals.fresh seconds) messages

reports_all_example :
    ((kind : MessageKind) → count_of kind counted.counts ≡ tally (has_kind kind) messages)
    × ((Totals.on_message seconds counted added).1.printed ≡ (
        if leb 5000000000 (seconds 4 - last_report seconds 3)
        then counted.printed ++ record { total = 4; lines = bump counted.counts added.type } ∷ []
        else counted.printed))
reports_all_example = reports_all seconds messages added (omega arith)

abbrev answers : SocketAnswers
answers = record { socket_answer = pos 3; bind_answer = pos 0; join_answer = pos 0 }

mains_launch_example :
    Ends seconds false answers (echo 0) (printer Printer.fresh ∷ []) (basic_main seconds answers)
    × Ends seconds false answers
        (itch Parser.initial)
        (order_book (OrderBook.fresh 7) ∷ totals (Totals.fresh seconds) ∷ [])
        (itch50_main seconds 7 answers)
mains_launch_example = mains_launch seconds 7 answers
