-- ===== src/Tests/Queues.antt =====
-- `SPSCQueue` (core/distribution/lockfree_queue.hpp) and `Statistics` (core/types.hpp) on concrete inputs.
use winter_square.Common.{ℕ, ◌*◌, ◌≡◌, refl, true, false, List, [], ◌∷◌, arith}
use winter_square.Core.Statistics.{initial, update_all, update_all-initial}
use winter_square.Queue.Spsc.{SpscQueue, push, pop, next_index, count, capacity, empty, full}
use winter_square.Queue.Spsc.Ring.{IsSize, IsValid, distance, static_assert-IsSize}
use winter_square.Queue.Spsc.Client.{
  Op, put, get, ask_size, ask_empty, ask_full, ask_capacity, flag_reply, pushed_reply, popped_reply,
  size_reply, run, run_fifo, run_refines,
}

four-IsSize : IsSize 4
four-IsSize = static_assert-IsSize 4 (omega arith) (omega arith) refl

-- 8, then 9, round the end of the buffer.
abbrev wrapped : SpscQueue ℕ
wrapped = record { size = 4; head = 1; tail = 3; buffer = 9 ∷ 6 ∷ 7 ∷ 8 ∷ [] }

wrapped-IsValid : IsValid wrapped
wrapped-IsValid = record {
  is_size = four-IsSize;
  head_in = omega arith;
  tail_in = omega arith;
  room = refl;
}

abbrev script : List (Op ℕ)
script =
    put 1
    ∷ put 2
    ∷ ask_size
    ∷ ask_full
    ∷ ask_capacity
    ∷ get 0
    ∷ get 0
    ∷ get 0
    ∷ get 0
    ∷ ask_empty
    ∷ []

run-wrapped :
    run wrapped script
    ≡ pushed_reply true
      ∷ pushed_reply false
      ∷ size_reply 3
      ∷ flag_reply true
      ∷ size_reply 3
      ∷ popped_reply true 8
      ∷ popped_reply true 9
      ∷ popped_reply true 1
      ∷ popped_reply false 0
      ∷ flag_reply true
      ∷ []
unfolding run push pop next_index count empty full capacity
run-wrapped = refl

run_refines_example : run wrapped script ≡ run_fifo 3 (8 ∷ 9 ∷ []) script
unfolding capacity distance
run_refines_example = run_refines script wrapped-IsValid

static_assert-IsSize_example : IsSize (1024 * 16)
static_assert-IsSize_example = static_assert-IsSize (1024 * 16) (omega arith) (omega arith) refl

update_all-initial_example :
    let r = update_all initial (5 ∷ 3 ∷ 9 ∷ []) in
    (r.min_latency_ns ≡ 3) × (r.max_latency_ns ≡ 9) × (r.total_latency_ns ≡ 17)
update_all-initial_example = update_all-initial (5 ∷ 3 ∷ 9 ∷ [])
