-- ===== src/Examples/OrderBook/Counts.antt =====
-- `OrderBookSubscriber` counts the messages that concern it, by kind.
use winter_square.Common.{ℕ, ◌+◌, ◌%◌, ◌^◌, ◌<◌, ◌≡◌, refl, List, [], ◌∷◌, arith}
use winter_square.Core.Types.{NormalizedMessage, MessageKind}
use winter_square.Core.Dispatcher.Delivery.{deliver}
use winter_square.Examples.Counting.{kind_number, tally}
use winter_square.Examples.OrderBook.{
  OrderBook, fresh, count_kind, on_message, order_book_subscriber, concerns, concerns_kind,
}

-- The counters are `uint64_t`.
record InRange (b : OrderBook) : Type 0 where
  all_in : b.message_count < 2 ^ 64
  adds_in : b.add_count < 2 ^ 64
  executions_in : b.execute_count < 2 ^ 64
  cancels_in : b.cancel_count < 2 ^ 64
  deletes_in : b.delete_count < 2 ^ 64
  trades_in : b.trade_count < 2 ^ 64

-- The counters of a book for `instrument`, `b` before and `r` after the messages `ms`.
pub record Counted (instrument : ℕ) (b : OrderBook) (ms : List NormalizedMessage) (r : OrderBook)
    : Type 0 where
  pub same_instrument : r.instrument_id ≡ instrument
  pub all : r.message_count ≡ (b.message_count + tally (concerns instrument) ms) % 2 ^ 64
  pub adds :
      r.add_count
      ≡ (b.add_count + tally (concerns_kind instrument MessageKind.order_add) ms) % 2 ^ 64
  pub executions :
      r.execute_count
      ≡ (b.execute_count + tally (concerns_kind instrument MessageKind.order_execute) ms) % 2 ^ 64
  pub cancels :
      r.cancel_count
      ≡ (b.cancel_count + tally (concerns_kind instrument MessageKind.order_modify) ms) % 2 ^ 64
  pub deletes :
      r.delete_count
      ≡ (b.delete_count + tally (concerns_kind instrument MessageKind.order_delete) ms) % 2 ^ 64
  pub trades :
      r.trade_count
      ≡ (b.trade_count + tally (concerns_kind instrument MessageKind.trade) ms) % 2 ^ 64

on_message-Counted :
    (instrument : ℕ) (b : OrderBook) (m : NormalizedMessage)
    → b.instrument_id ≡ instrument
    → InRange b
    → Counted instrument b (m ∷ []) (on_message b m).1
unfolding on_message count_kind concerns concerns_kind kind_number tally
on_message-Counted instrument b m e h = ground arith

Counted-InRange :
    (instrument : ℕ) {b r : OrderBook} (ms : List NormalizedMessage)
    → Counted instrument b ms r
    → InRange r
Counted-InRange instrument ms c = omega arith

Counted-trans :
    (instrument : ℕ) (b b' r : OrderBook) (m : NormalizedMessage) (ms : List NormalizedMessage)
    → Counted instrument b (m ∷ []) b'
    → Counted instrument b' ms r
    → Counted instrument b (m ∷ ms) r
unfolding tally
Counted-trans instrument b b' r m ms c d = omega arith

deliver-Counted :
    (instrument : ℕ) (ms : List NormalizedMessage) (b : OrderBook)
    → b.instrument_id ≡ instrument
    → InRange b
    → Counted instrument b ms (deliver order_book_subscriber b ms)
unfolding deliver tally
deliver-Counted instrument [] b e h = omega arith
deliver-Counted instrument (m ∷ ms) b e h =
    let c = on_message-Counted instrument b m e h in
    Counted-trans instrument b (on_message b m).1 _ m ms c (
      deliver-Counted instrument ms (on_message b m).1 c.same_instrument
        (Counted-InRange instrument (m ∷ []) c))

-- A fresh book for an instrument, or for all (0), that is given any messages counts those of them
-- that have this instrument, and of these the additions, executions, modifications, deletions and
-- trades, each modulo 2 ^ 64.
pub deliver-fresh :
    (instrument : ℕ) (ms : List NormalizedMessage)
    → Counted instrument (fresh instrument) ms (deliver order_book_subscriber (fresh instrument) ms)
deliver-fresh instrument ms = deliver-Counted instrument ms (fresh instrument) refl (omega arith)
