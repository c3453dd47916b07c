-- ===== src/Tests/Threads.antt =====
-- Two threads on one `SPSCQueue` (core/distribution/lockfree_queue.hpp), on concrete inputs.
use winter_square.Common.{ℕ, ◌<◌, ◌≡◌, ◌≢◌, refl, true, false, [], ◌∷◌, ◌++◌, arith, length}
use winter_square.Queue.Spsc.{init, next_index, capacity}
use winter_square.Queue.Spsc.Ring.{IsSize, IsValid, static_assert-IsSize}
use winter_square.Queue.Spsc.Refine.{contents}
use winter_square.Queue.Spsc.Threads.{
  Producer, Consumer, pushed, popped, Threads, initial, test_tail, write_item, store_head,
  test_head, Reach, here, next, begin_push, tests_tail, writes_item, stores_head, begin_pop,
  tests_head,
}
use winter_square.Queue.Spsc.Threads.Holds.{Explains}
use winter_square.Queue.Spsc.Threads.Linear.{
  linearizable, first_in_first_out, no_race, inserted, removed,
}

four-IsSize : IsSize 4
four-IsSize = static_assert-IsSize 4 (omega arith) (omega arith) refl

abbrev start : Threads ℕ
start = initial (init 4 0)

-- While 5 is pushed, a `pop` finds nothing; then the next calls of both threads are about to copy.
abbrev both : Threads ℕ
both = record {
  queue = record { size = 4; head = 1; tail = 0; buffer = 5 ∷ 0 ∷ 0 ∷ 0 ∷ [] };
  producer = Producer.found_room 6 1;
  consumer = Consumer.found_item 9 0;
  log = popped 8 false 8 ∷ pushed 5 true ∷ [];
}

start-both : Reach start both
unfolding init test_tail write_item store_head test_head next_index
start-both =
    let loaded = next (next here (begin_push 5 refl)) (begin_pop 8 refl) in
    let missed = next (next loaded (tests_tail 5 0 refl)) (tests_head 8 0 refl) in
    let done = next (next missed (writes_item 5 0 refl)) (stores_head 5 0 refl) in
    let again = next (next done (begin_push 6 refl)) (begin_pop 9 refl) in
    next (next again (tests_tail 6 1 refl)) (tests_head 9 0 refl)

linearizable_example : Explains 3 [] both.log (contents both.queue) × IsValid both.queue
unfolding capacity init
linearizable_example = linearizable 0 four-IsSize start-both

first_in_first_out_example : inserted both.log ≡ removed both.log ++ contents both.queue
first_in_first_out_example = first_in_first_out 0 four-IsSize start-both

no_race_example :
    (1 < length both.queue.buffer) × (0 < length both.queue.buffer) × (◌≢◌ {A = ℕ} 1 0)
no_race_example = no_race 0 four-IsSize start-both 6 9 1 0 refl refl
