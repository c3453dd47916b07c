-- ===== src/Core/Statistics.antt =====
-- `Statistics` of core/types.hpp: counters and latencies, all `uint64_t`.
use winter_square.Common.{
  ℕ, ◌+◌, ◌-◌, ◌%◌, ◌^◌, ◌<◌, ◌≡◌, refl, ap, ◌∙◌, List, [], ◌∷◌, arith, ltb, if◌then◌else◌, min,
  max,
}
use winter_square.Common.Word.{add_u64}

pub record Statistics : Type 0 where
  pub packets_received : ℕ
  pub packets_dropped : ℕ
  pub messages_parsed : ℕ
  pub messages_dispatched : ℕ
  pub parse_errors : ℕ
  pub min_latency_ns : ℕ
  pub max_latency_ns : ℕ
  pub total_latency_ns : ℕ

abbrev pub initial : Statistics
initial = record {
  packets_received = 0;
  packets_dropped = 0;
  messages_parsed = 0;
  messages_dispatched = 0;
  parse_errors = 0;
  min_latency_ns = 2 ^ 64 - 1;
  max_latency_ns = 0;
  total_latency_ns = 0;
}

unfoldable pub update_latency : Statistics → ℕ → Statistics
update_latency s latency_ns = record s {
  min_latency_ns = if ltb latency_ns s.min_latency_ns then latency_ns else s.min_latency_ns;
  max_latency_ns = if ltb s.max_latency_ns latency_ns then latency_ns else s.max_latency_ns;
  total_latency_ns = add_u64 s.total_latency_ns latency_ns;
}

-- The `double`s, the conversion to them, and their division are parameters.
unfoldable pub avg_latency_ns :
    {Double : Type 0} → (ℕ → Double) → (Double → Double → Double) → Double → Statistics → Double
avg_latency_ns to_double divide zero_double s =
    if ltb 0 s.messages_dispatched
    then divide (to_double s.total_latency_ns) (to_double s.messages_dispatched)
    else zero_double

-- The latencies of a run, in order.
pub update_all : Statistics → List ℕ → Statistics
update_all s [] = s
update_all s (l ∷ ls) = update_all (update_latency s l) ls

abbrev minimum : ℕ → List ℕ → ℕ
minimum m [] = m
minimum m (l ∷ ls) = min l (minimum m ls)

abbrev maximum : ℕ → List ℕ → ℕ
maximum m [] = m
maximum m (l ∷ ls) = max l (maximum m ls)

abbrev sum : List ℕ → ℕ
sum [] = 0
sum (l ∷ ls) = l + sum ls

minimum_lem : (ls : List ℕ) (a m : ℕ) → minimum (min a m) ls ≡ min a (minimum m ls)
minimum_lem [] a m = refl
minimum_lem (l ∷ ls) a m = omega (arith, minimum_lem ls a m)

maximum_lem : (ls : List ℕ) (a m : ℕ) → maximum (max a m) ls ≡ max a (maximum m ls)
maximum_lem [] a m = refl
maximum_lem (l ∷ ls) a m = omega (arith, maximum_lem ls a m)

-- Three accumulators in one loop.
record Summary (s : Statistics) (ls : List ℕ) (r : Statistics) : Type 0 where
  least : r.min_latency_ns ≡ minimum s.min_latency_ns ls
  greatest : r.max_latency_ns ≡ maximum s.max_latency_ns ls
  total : r.total_latency_ns ≡ (s.total_latency_ns + sum ls) % 2 ^ 64

update_latency_lem :
    (s : Statistics) (l : ℕ)
    → ((update_latency s l).min_latency_ns ≡ min l s.min_latency_ns)
      × ((update_latency s l).max_latency_ns ≡ max l s.max_latency_ns)
      × ((update_latency s l).total_latency_ns ≡ (s.total_latency_ns + l) % 2 ^ 64)
unfolding update_latency
update_latency_lem s l = ground arith

update_all-Summary :
    (ls : List ℕ) (s : Statistics) → s.total_latency_ns < 2 ^ 64 → Summary s ls (update_all s ls)
unfolding update_all
update_all-Summary [] s h = omega arith
update_all-Summary (l ∷ ls) s h =
    let ih = update_all-Summary ls (update_latency s l) (omega (arith, update_latency_lem s l)) in
    record {
      least = ih.least ∙ ap (λ m. minimum m ls) (update_latency_lem s l).0 ∙ minimum_lem ls l _;
      greatest =
          ih.greatest ∙ ap (λ m. maximum m ls) (update_latency_lem s l).1 ∙ maximum_lem ls l _;
      total = omega (arith, ih.total, update_latency_lem s l);
    }

-- After any latencies the counters hold their minimum (`UINT64_MAX` if there is none), their
-- maximum, and their sum modulo 2 ^ 64.
pub update_all-initial :
    (ls : List ℕ)
    → let r = update_all initial ls in
      (r.min_latency_ns ≡ minimum (2 ^ 64 - 1) ls)
      × (r.max_latency_ns ≡ maximum 0 ls)
      × (r.total_latency_ns ≡ sum ls % 2 ^ 64)
update_all-initial ls = omega (arith, update_all-Summary ls initial (omega arith))
