-- ===== src/Examples/OrderBook/Printing.antt =====
-- `OrderBookSubscriber` prints every thousandth addition and execution, and every hundredth trade.
use winter_square.Common.{
  ℕ, suc, ◌+◌, ◌/◌, ◌^◌, ◌<◌, ◌≤◌, ◌≡◌, not, ◌&&◌, List, [], ◌∷◌, ◌++◌, arith, ◌==◌, length,
  Bool-cases, inl, inr,
}
use winter_square.Common.Word.{add_u64}
use winter_square.Core.Types.{NormalizedMessage, MessageKind}
use winter_square.Core.Dispatcher.Delivery.{deliver}
use winter_square.Examples.OrderBook.{
  Line, add_line, execute_line, trade_line, totals_line, OrderBook, fresh, print_every, count_kind,
  on_message, order_book_subscriber,
}

unfoldable pub add_lines : List Line → ℕ
add_lines [] = 0
add_lines (add_line m ∷ ls) = suc (add_lines ls)
add_lines (execute_line m ∷ ls) = add_lines ls
add_lines (trade_line m ∷ ls) = add_lines ls
add_lines (totals_line a b c d e f ∷ ls) = add_lines ls

unfoldable pub execute_lines : List Line → ℕ
execute_lines [] = 0
execute_lines (add_line m ∷ ls) = execute_lines ls
execute_lines (execute_line m ∷ ls) = suc (execute_lines ls)
execute_lines (trade_line m ∷ ls) = execute_lines ls
execute_lines (totals_line a b c d e f ∷ ls) = execute_lines ls

unfoldable pub trade_lines : List Line → ℕ
trade_lines [] = 0
trade_lines (add_line m ∷ ls) = trade_lines ls
trade_lines (execute_line m ∷ ls) = trade_lines ls
trade_lines (trade_line m ∷ ls) = suc (trade_lines ls)
trade_lines (totals_line a b c d e f ∷ ls) = trade_lines ls

add_lines_snoc :
    (ls : List Line) (l : Line) → add_lines (ls ++ l ∷ []) ≡ add_lines ls + add_lines (l ∷ [])
unfolding add_lines
add_lines_snoc [] l = omega arith
add_lines_snoc (add_line m ∷ ls) l = omega (arith, add_lines_snoc ls l)
add_lines_snoc (execute_line m ∷ ls) l = add_lines_snoc ls l
add_lines_snoc (trade_line m ∷ ls) l = add_lines_snoc ls l
add_lines_snoc (totals_line a b c d e f ∷ ls) l = add_lines_snoc ls l

execute_lines_snoc :
    (ls : List Line) (l : Line)
    → execute_lines (ls ++ l ∷ []) ≡ execute_lines ls + execute_lines (l ∷ [])
unfolding execute_lines
execute_lines_snoc [] l = omega arith
execute_lines_snoc (add_line m ∷ ls) l = execute_lines_snoc ls l
execute_lines_snoc (execute_line m ∷ ls) l = omega (arith, execute_lines_snoc ls l)
execute_lines_snoc (trade_line m ∷ ls) l = execute_lines_snoc ls l
execute_lines_snoc (totals_line a b c d e f ∷ ls) l = execute_lines_snoc ls l

trade_lines_snoc :
    (ls : List Line) (l : Line) → trade_lines (ls ++ l ∷ []) ≡ trade_lines ls + trade_lines (l ∷ [])
unfolding trade_lines
trade_lines_snoc [] l = omega arith
trade_lines_snoc (add_line m ∷ ls) l = trade_lines_snoc ls l
trade_lines_snoc (execute_line m ∷ ls) l = trade_lines_snoc ls l
trade_lines_snoc (trade_line m ∷ ls) l = omega (arith, trade_lines_snoc ls l)
trade_lines_snoc (totals_line a b c d e f ∷ ls) l = trade_lines_snoc ls l

-- The lines printed so far are those that the counters call for.
pub record IsPrinted (b : OrderBook) : Type 0 where
  pub adds : add_lines b.printed ≡ b.add_count / 1000
  pub executions : execute_lines b.printed ≡ b.execute_count / 1000
  pub trades : trade_lines b.printed ≡ b.trade_count / 100

-- No counter is above `n`.
record AtMost (n : ℕ) (b : OrderBook) : Type 0 where
  adds_most : b.add_count ≤ n
  executions_most : b.execute_count ≤ n
  trades_most : b.trade_count ≤ n

count_kind-IsPrinted :
    (n : ℕ) (kind : MessageKind) (b : OrderBook) (m : NormalizedMessage)
    → n + 1 < 2 ^ 64
    → AtMost n b
    → IsPrinted b
    → IsPrinted (count_kind kind b m) × AtMost (n + 1) (count_kind kind b m)
unfolding count_kind print_every add_lines execute_lines trade_lines
count_kind-IsPrinted n MessageKind.order_add b m lt most h = (
  ground (
    arith,
    add_lines_snoc b.printed (add_line m),
    execute_lines_snoc b.printed (add_line m),
    trade_lines_snoc b.printed (add_line m),
  ),
  ground arith,
)
count_kind-IsPrinted n MessageKind.order_execute b m lt most h = (
  ground (
    arith,
    add_lines_snoc b.printed (execute_line m),
    execute_lines_snoc b.printed (execute_line m),
    trade_lines_snoc b.printed (execute_line m),
  ),
  ground arith,
)
count_kind-IsPrinted n MessageKind.trade b m lt most h = (
  ground (
    arith,
    add_lines_snoc b.printed (trade_line m),
    execute_lines_snoc b.printed (trade_line m),
    trade_lines_snoc b.printed (trade_line m),
  ),
  ground arith,
)
count_kind-IsPrinted n _ b m lt most h = omega arith

on_message-IsPrinted :
    (n : ℕ) (b : OrderBook) (m : NormalizedMessage)
    → n + 1 < 2 ^ 64
    → AtMost n b
    → IsPrinted b
    → IsPrinted (on_message b m).1 × AtMost (n + 1) (on_message b m).1
unfolding on_message
on_message-IsPrinted n b m lt most h =
    elim (Bool-cases (not (m.instrument_id == b.instrument_id) && not (b.instrument_id == 0))) [
      | inl other ↦ rw other (h, omega arith)
      | inr concerned ↦ rw concerned (
          count_kind-IsPrinted n m.type (record b { message_count = add_u64 b.message_count 1 }) m
            lt (omega arith) (omega arith))
    ]

deliver-IsPrinted_from :
    (ms : List NormalizedMessage) (n : ℕ) (b : OrderBook)
    → n + length ms < 2 ^ 64
    → AtMost n b
    → IsPrinted b
    → IsPrinted (deliver order_book_subscriber b ms)
unfolding deliver
deliver-IsPrinted_from [] n b lt most h = h
deliver-IsPrinted_from (m ∷ ms) n b lt most h =
    let (h', most') = on_message-IsPrinted n b m (omega arith) most h in
    deliver-IsPrinted_from ms (n + 1) (on_message b m).1 (omega arith) most' h'

-- A fresh book that is given fewer than 2 ^ 64 messages has printed as many lines of additions as
-- there are whole thousands in its count of additions, and likewise for executions, and for trades
-- by hundreds.
pub deliver-IsPrinted :
    (instrument : ℕ) (ms : List NormalizedMessage)
    → length ms < 2 ^ 64
    → IsPrinted (deliver order_book_subscriber (fresh instrument) ms)
unfolding add_lines execute_lines trade_lines
deliver-IsPrinted instrument ms lt =
    deliver-IsPrinted_from ms 0 (fresh instrument) (omega arith) (omega arith) (omega arith)
