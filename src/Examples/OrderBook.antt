-- ===== src/Examples/OrderBook.antt =====
-- `OrderBookSubscriber` of examples/itch50_example.cpp: counts of the messages of one instrument, or of
-- all. What it prints is kept, newest last.
pub mod Counts
pub mod Printing
use winter_square.Common.{
  ℕ, ◌+◌, ◌-◌, ◌/◌, ◌%◌, ◌^◌, ◌<◌, ◌≤◌, ◌≡◌, refl, ap, ◌∙◌, Bool, true, false, not, ◌&&◌, ◌||◌,
  List, [], ◌∷◌, ◌++◌, arith, ◌==◌, if◌then◌else◌, length, length-append, Bool-cases, inl, inr,
}
use winter_square.Common.Word.{add_u64}
use winter_square.Core.Types.{NormalizedMessage, MessageKind}
use winter_square.Core.Subscriber.{Subscriber}
use winter_square.Core.Dispatcher.Delivery.{deliver}
use winter_square.Examples.Counting.{kind_number, tally}

-- The lines that `print_order`, with its action, `print_trade` and `shutdown` print.
pub data Line : Type 0 where
  add_line execute_line trade_line : NormalizedMessage → Line
  totals_line : (messages adds executions cancels deletes trades : ℕ) → Line

pub record OrderBook : Type 0 where
  pub instrument_id : ℕ
  pub message_count : ℕ
  pub add_count : ℕ
  pub execute_count : ℕ
  pub cancel_count : ℕ
  pub delete_count : ℕ
  pub trade_count : ℕ
  pub printed : List Line

abbrev pub fresh : ℕ → OrderBook
fresh instrument_id = record {
  instrument_id = instrument_id;
  message_count = 0;
  add_count = 0;
  execute_count = 0;
  cancel_count = 0;
  delete_count = 0;
  trade_count = 0;
  printed = [];
}

-- Every `n`th is printed.
print_every : ℕ → ℕ → Line → List Line → List Line
print_every n count line printed = if count % n == 0 then printed ++ line ∷ [] else printed

-- The `switch` on the type.
unfoldable pub count_kind : MessageKind → OrderBook → NormalizedMessage → OrderBook
unfolding print_every
count_kind MessageKind.order_add b msg =
    let count = add_u64 b.add_count 1 in
    record b { add_count = count; printed = print_every 1000 count (add_line msg) b.printed }
count_kind MessageKind.order_execute b msg =
    let count = add_u64 b.execute_count 1 in
    record b {
      execute_count = count;
      printed = print_every 1000 count (execute_line msg) b.printed;
    }
count_kind MessageKind.order_modify b msg = record b { cancel_count = add_u64 b.cancel_count 1 }
count_kind MessageKind.order_delete b msg = record b { delete_count = add_u64 b.delete_count 1 }
count_kind MessageKind.trade b msg =
    let count = add_u64 b.trade_count 1 in
    record b { trade_count = count; printed = print_every 100 count (trade_line msg) b.printed }
count_kind _ b msg = b

unfoldable pub on_message : OrderBook → NormalizedMessage → Bool × OrderBook
on_message b msg =
    if not (msg.instrument_id == b.instrument_id) && not (b.instrument_id == 0)
    then (true, b)
    else (true, count_kind msg.type (record b { message_count = add_u64 b.message_count 1 }) msg)

unfoldable pub shutdown : OrderBook → OrderBook
shutdown b = record b {
  printed =
      b.printed
      ++ totals_line b.message_count b.add_count b.execute_count b.cancel_count b.delete_count
          b.trade_count
        ∷ [];
}

abbrev pub order_book_subscriber : Subscriber OrderBook
order_book_subscriber = record { on_message = on_message; initialize = λ b. b; shutdown = shutdown }

-- The messages that a book for `instrument` counts.
unfoldable pub concerns : ℕ → NormalizedMessage → Bool
concerns instrument msg = msg.instrument_id == instrument || instrument == 0

unfoldable pub concerns_kind : ℕ → MessageKind → NormalizedMessage → Bool
unfolding concerns kind_number
concerns_kind instrument kind msg =
    concerns instrument msg && kind_number msg.type == kind_number kind
