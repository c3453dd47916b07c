-- ===== src/Examples/Totals.antt =====
-- `StatisticsSubscriber` of examples/itch50_example.cpp: a count for each type of message, printed
-- every five seconds. What it prints is kept, newest last. The clock (`steady_clock::now`, in
-- nanoseconds) is a parameter: `clock n` is what its `n`th call returns, the first being that of
-- the constructor; it never goes back. The percentages, which are doubles made of the printed numbers, are left out.
pub mod Sums
use winter_square.Common.{
  ℕ, suc, ◌+◌, ◌-◌, ◌*◌, ◌%◌, ◌^◌, ◌<◌, ◌≤◌, ◌≡◌, refl, ap, ◌∙◌, Bool, true, false, List, [], ◌∷◌,
  ◌++◌, arith, leb, ◌==◌, if◌then◌else◌, length, All, All-append, Bool-cases, inl, inr,
}
use winter_square.Common.Word.{add_u64}
use winter_square.Core.Types.{NormalizedMessage, MessageKind}
use winter_square.Core.Subscriber.{Subscriber}
use winter_square.Core.Dispatcher.Delivery.{deliver}
use winter_square.Examples.Counting.{kind_number}

-- The `unordered_map` from types to counts.
abbrev pub Counts : Type 0
Counts = List (MessageKind × ℕ)

-- `stats_[type]++`
unfoldable pub bump : Counts → MessageKind → Counts
bump [] kind = (kind, 1) ∷ []
bump ((k, n) ∷ counts) kind =
    if kind_number k == kind_number kind
    then (k, add_u64 n 1) ∷ counts
    else (k, n) ∷ bump counts kind

-- The sum of `print_stats`, which is a `uint64_t`.
unfoldable pub sum_from : ℕ → Counts → ℕ
sum_from total [] = total
sum_from total ((k, n) ∷ counts) = sum_from (add_u64 total n) counts

-- The numbers that `print_stats` prints.
pub record Report : Type 0 where
  pub total : ℕ
  pub lines : Counts

pub record Totals : Type 0 where
  pub counts : Counts
  pub last_print : ℕ
  pub calls : ℕ
  pub printed : List Report

unfoldable pub report : Counts → Report
report counts = record { total = sum_from 0 counts; lines = counts }

module _ (clock : ℕ → ℕ) where
  unfoldable pub fresh : Totals
  fresh = record { counts = []; last_print = clock 0; calls = 1; printed = [] }

  unfoldable pub on_message : Totals → NormalizedMessage → Bool × Totals
  on_message t msg =
      let counts = bump t.counts msg.type in
      let now = clock t.calls in
      let counted : Totals = record t { counts = counts; calls = t.calls + 1 } in
      (
        true,
        (if leb (5 * 10 ^ 9) (now - t.last_print)
            then record counted { printed = t.printed ++ report counts ∷ []; last_print = now }
            else counted),
      )

  abbrev pub statistics_subscriber : Subscriber Totals
  statistics_subscriber = record { on_message = on_message; initialize = λ t. t; shutdown = λ t. t }
