-- ===== src/Examples/Totals/Sums.antt =====
-- What `StatisticsSubscriber` has counted, and what it prints.
use winter_square.Common.{
  ℕ, zero, suc, refl, ◌+◌, ◌-◌, ◌*◌, ◌%◌, ◌^◌, ◌<◌, ◌≡◌, ap, ◌∙◌, Bool, List, [], ◌∷◌, ◌++◌, arith,
  leb, ◌==◌, if◌then◌else◌, length, Bool-cases, inl, inr,
}
use winter_square.Common.Word.{add_u64}
use winter_square.Core.Types.{NormalizedMessage, MessageKind}
use winter_square.Core.Dispatcher.Delivery.{deliver}
use winter_square.Examples.Counting.{kind_number, tally}
use winter_square.Examples.Totals.{
  Counts, bump, sum_from, Totals, report, fresh, on_message, statistics_subscriber,
}

-- The sum without wrap-around.
sum : Counts → ℕ
sum [] = 0
sum ((k, n) ∷ counts) = n + sum counts

sum_from-sum :
    (counts : Counts) (total : ℕ)
    → total < 2 ^ 64
    → sum_from total counts ≡ (total + sum counts) % 2 ^ 64
unfolding sum_from sum
sum_from-sum [] total h = omega arith
sum_from-sum ((k, n) ∷ counts) total h =
    omega (arith, sum_from-sum counts (add_u64 total n) (omega arith))

sum-bump :
    (counts : Counts) (kind : MessageKind)
    → sum counts + 1 < 2 ^ 64
    → sum (bump counts kind) ≡ sum counts + 1
unfolding sum bump
sum-bump [] kind h = omega arith
sum-bump ((k, n) ∷ counts) kind h = ground (arith, sum-bump counts kind)

-- The count under a type; a type that is not in the map has none.
unfoldable pub count_of : MessageKind → Counts → ℕ
count_of kind [] = 0
count_of kind ((k, n) ∷ counts) =
    if kind_number k == kind_number kind then n else count_of kind counts

unfoldable pub has_kind : MessageKind → NormalizedMessage → Bool
has_kind kind msg = kind_number msg.type == kind_number kind

count_of-bump :
    (kind other : MessageKind) (counts : Counts)
    → sum counts + 1 < 2 ^ 64
    → count_of kind (bump counts other)
      ≡ count_of kind counts + (if kind_number other == kind_number kind then 1 else 0)
unfolding sum bump count_of
count_of-bump kind other [] h = ground arith
count_of-bump kind other ((k, n) ∷ counts) h = ground (arith, count_of-bump kind other counts)

module _ (clock : ℕ → ℕ) where
  counts-on_message :
      (t : Totals) (m : NormalizedMessage) → (on_message clock t m).1.counts ≡ bump t.counts m.type
  unfolding on_message
  counts-on_message t m = elim (Bool-cases (leb (5 * 10 ^ 9) (clock t.calls - t.last_print))) [
    | inl late ↦ rw late
    | inr soon ↦ rw soon
  ]

  deliver-sum :
      (ms : List NormalizedMessage) (t : Totals)
      → sum t.counts + length ms < 2 ^ 64
      → sum (deliver (statistics_subscriber clock) t ms).counts ≡ sum t.counts + length ms
  unfolding deliver
  deliver-sum [] t h = omega arith
  deliver-sum (m ∷ ms) t h =
      let one : sum (on_message clock t m).1.counts ≡ sum t.counts + 1 =
        ap sum (counts-on_message t m) ∙ sum-bump t.counts m.type (omega arith) in
      omega (arith, one, deliver-sum ms (on_message clock t m).1 (omega arith))

  deliver-count_of :
      (kind : MessageKind) (ms : List NormalizedMessage) (t : Totals)
      → sum t.counts + length ms < 2 ^ 64
      → count_of kind (deliver (statistics_subscriber clock) t ms).counts
        ≡ count_of kind t.counts + tally (has_kind kind) ms
  unfolding deliver tally has_kind
  deliver-count_of kind [] t h = omega arith
  deliver-count_of kind (m ∷ ms) t h =
      let one : sum (on_message clock t m).1.counts ≡ sum t.counts + 1 =
        ap sum (counts-on_message t m) ∙ sum-bump t.counts m.type (omega arith) in
      omega (
        arith,
        ap (count_of kind) (counts-on_message t m),
        count_of-bump kind m.type t.counts (omega arith),
        deliver-count_of kind ms (on_message clock t m).1 (omega arith),
      )

  -- When the last report was printed, or the subscriber made, after so many messages: the clock is
  -- read once for each.
  unfoldable pub last_report : ℕ → ℕ
  last_report zero = clock 0
  last_report (suc n) =
      let before = last_report n in
      if leb (5 * 10 ^ 9) (clock (suc n) - before) then clock (suc n) else before

  on_message-last_print :
      (t : Totals) (m : NormalizedMessage) (n : ℕ)
      → t.calls ≡ suc n
      → t.last_print ≡ last_report n
      → ((on_message clock t m).1.calls ≡ suc (suc n))
        × ((on_message clock t m).1.last_print ≡ last_report (suc n))
  unfolding on_message last_report
  on_message-last_print t m n calls last =
      rw (calls, last)
        (elim (Bool-cases (leb (5 * 10 ^ 9) (clock (suc n) - last_report n))) [
          | inl late ↦ rw late (omega arith, refl)
          | inr soon ↦ rw soon (omega arith, refl)
        ])

  deliver-last_print :
      (ms : List NormalizedMessage) (t : Totals) (n k : ℕ)
      → n + length ms ≡ k
      → t.calls ≡ suc n
      → t.last_print ≡ last_report n
      → let t' = deliver (statistics_subscriber clock) t ms in
        (t'.calls ≡ suc k) × (t'.last_print ≡ last_report k)
  unfolding deliver
  deliver-last_print [] t n k e calls last =
      let same : n ≡ k = omega arith in (calls ∙ ap suc same, last ∙ ap last_report same)
  deliver-last_print (m ∷ ms) t n k e calls last =
      let (calls', last') = on_message-last_print t m n calls last in
      deliver-last_print ms (on_message clock t m).1 (suc n) k (omega arith) calls' last'

  -- After fewer than 2 ^ 64 messages the subscriber holds, for each type, how many of them have it.
  -- If the next one comes at least five seconds after the last report (or the start), a report is
  -- printed, whose total is the number of all messages since the start, not of those since the
  -- last report; otherwise none is.
  pub reports_all :
      (ms : List NormalizedMessage) (m : NormalizedMessage)
      → length ms + 1 < 2 ^ 64
      → let t = deliver (statistics_subscriber clock) (fresh clock) ms in
        let t' = (on_message clock t m).1 in
        ((kind : MessageKind) → count_of kind t.counts ≡ tally (has_kind kind) ms)
        × (t'.printed ≡ (
            if leb (5 * 10 ^ 9) (clock (suc (length ms)) - last_report (length ms))
            then t.printed ++ record { total = length ms + 1; lines = bump t.counts m.type } ∷ []
            else t.printed))
  unfolding on_message report sum count_of fresh last_report
  reports_all ms m h =
      let t = deliver (statistics_subscriber clock) (fresh clock) ms in
      let all : sum t.counts ≡ length ms =
        omega (arith, deliver-sum ms (fresh clock) (omega arith)) in
      let (calls, last) : (t.calls ≡ suc (length ms)) × (t.last_print ≡ last_report (length ms)) =
        deliver-last_print ms (fresh clock) 0 (length ms) (omega arith) refl refl in
      let total : sum_from 0 (bump t.counts m.type) ≡ length ms + 1 = omega (
        arith,
        sum_from-sum (bump t.counts m.type) 0 (omega arith),
        sum-bump t.counts m.type (omega arith),
      ) in
      (
        (λ kind. omega (arith, deliver-count_of kind ms (fresh clock) (omega arith))),
        rw (calls, last)
            (elim (Bool-cases
              (leb (5 * 10 ^ 9) (clock (suc (length ms)) - last_report (length ms)))) [
                | inl late ↦ rw late (
                    ap (λ n. t.printed ++ record { total = n; lines = bump t.counts m.type } ∷ [])
                      total)
                | inr soon ↦ rw soon
              ]),
      )
