-- ===== src/Tests/Producers.antt =====
-- Several producers on one `MPSCQueue` (core/distribution/lockfree_queue.hpp), on concrete inputs.
use winter_square.Common.{
  ℕ, ◌+◌, ◌≤◌, ◌≡◌, ◌≢◌, ◌⊎◌, refl, true, false, ◌++◌, some, arith, length, drop, get_elem?,
  bit_and,
}
use winter_square.Common.Word.{add_u64}
use winter_square.Queue.Spsc.{mask}
use winter_square.Queue.Spsc.Ring.{IsSize, static_assert-IsSize}
use winter_square.Queue.Mpsc.{
  Node, Sign, difference, init, number_nodes, update, change_node, empty, node_at, Producer,
  Consumer, Threads, initial, moves, test_push, exchange_head, write_data, publish, test_pop,
  begin_push, loads_head, writes, publishes, begin_pop, loads_next, tests_pop, Step, Reach, here,
  next,
}
use winter_square.Queue.Mpsc.Holds.{Waits}
use winter_square.Queue.Mpsc.Lone.{consuming, producing, Must}
use winter_square.Queue.Mpsc.Linear.{takes_in_order, refuses_full, writers_apart, pop_follows}
use winter_square.Queue.Mpsc.Progress.{
  Pushed, Popped, claimed_head, claim_runs, push_completes, pop_completes,
}

four-IsSize : IsSize 4
four-IsSize = static_assert-IsSize 4 (omega arith) (omega arith) refl

two-IsSize : IsSize 2
two-IsSize = static_assert-IsSize 2 (omega arith) (omega arith) refl

-- A node that no producer has filled.
abbrev blank : ℕ → Node ℕ
blank sequence = record { sequence = sequence; content = 0 }

abbrev pushed : Threads ℕ → ℕ → ℕ → Threads ℕ
pushed s p x =
    publish (write_data (claimed_head s p x s.queue.head) p x s.queue.head) p x s.queue.head

abbrev start : Threads ℕ
start = initial (init 4 0)

abbrev one : Threads ℕ
one = pushed start 0 5

start-one : Reach start one
unfolding init number_nodes node_at difference test_push exchange_head write_data publish
    change_node update
start-one =
    let claims = claim_runs 0 5 (blank 0) here refl refl refl in
    next (next claims (writes 0 5 0 refl)) (publishes 0 5 0 refl)

-- Two producers have claimed places, and the consumer has found the item of the place before.
abbrev several : Threads ℕ
several = record (claimed_head (claimed_head one 0 6 1) 1 7 2) { consumer = Consumer.found 9 0 }

start-several : Reach start several
unfolding init number_nodes node_at difference test_push exchange_head write_data publish
    change_node update test_pop
start-several =
    let claims = claim_runs 0 6 (blank 1) start-one refl refl refl in
    let both = claim_runs 1 7 (blank 2) claims refl refl refl in
    let pops =
      next (next both (begin_pop 9 refl))
        (loads_next 9 0 (record { sequence = 1; content = 5 }) refl refl) in
    next pops (tests_pop 9 0 1 refl)

takes_in_order_example :
    several.taken ++ drop (length several.taken) several.claims ≡ several.claims
unfolding init exchange_head write_data publish
takes_in_order_example = takes_in_order 0 four-IsSize (omega arith) start-several (omega arith)

writers_apart_example :
    ((node : Node ℕ) × (node_at several.queue 1 ≡ some node))
    × (bit_and 1 (mask several.queue.size) ≢ bit_and 2 (mask several.queue.size))
    × (bit_and 1 (mask several.queue.size) ≢ bit_and 0 (mask several.queue.size))
unfolding init exchange_head write_data publish
writers_apart_example =
    writers_apart 0 four-IsSize (omega arith) start-several (omega arith) 0 1 6 7 9 1 2 0 refl refl
      (omega arith) refl

-- The consumer has loaded the tail.
abbrev popping : Threads ℕ
popping = record one { consumer = Consumer.loaded_tail 9 0 }

abbrev ready : Node ℕ
ready = record { sequence = 1; content = 5 }

start-popping : Reach start popping
unfolding init exchange_head write_data publish
start-popping = next start-one (begin_pop 9 refl)

pop_follows_example :
    (0 ≡ length popping.taken)
    × (((difference ready.sequence (add_u64 0 1) ≡ Sign.zero_sign)
          × (get_elem? popping.claims 0 ≡ some ready.content))
        ⊎ ((difference ready.sequence (add_u64 0 1) ≡ Sign.negative) × (ready.sequence ≡ 0)))
unfolding init number_nodes node_at exchange_head write_data publish change_node update
pop_follows_example =
    pop_follows 0 four-IsSize (omega arith) start-popping (omega arith) 9 0 ready refl refl

abbrev pop_called : Threads ℕ
pop_called = record one { consumer = Consumer.loaded_tail 9 0 }

pop_completes_example :
    ((empty one.queue ≡ some true) × Waits one.queue (length one.taken))
    ⊎ ((empty one.queue ≡ some false)
        × ((x : ℕ) × (get_elem? one.claims (length one.taken) ≡ some x)
            × Step one pop_called
            × Must consuming (Popped one x) pop_called))
unfolding init exchange_head write_data publish
pop_completes_example = pop_completes 0 four-IsSize (omega arith) start-one (omega arith) 9 refl

abbrev push_called : Threads ℕ
push_called = moves one 3 (Producer.looping 8)

push_completes_example : Step one push_called × Must (producing 3) (Pushed one 3 8) push_called
unfolding init exchange_head write_data publish
push_completes_example =
    push_completes 0 four-IsSize (omega arith) start-one (omega arith) 3 8 refl (omega arith)

-- Two places of two are claimed, and neither is published.
abbrev start_two : Threads ℕ
start_two = initial (init 2 0)

abbrev full : Threads ℕ
full =
    moves (moves (claimed_head (claimed_head start_two 0 5 0) 1 6 1) 2 (Producer.looping 7)) 2
      (Producer.loaded_head 7 2)

start-full : Reach start_two full
unfolding init number_nodes node_at difference test_push exchange_head
start-full =
    let claims = claim_runs 0 5 (blank 0) here refl refl refl in
    let both = claim_runs 1 6 (blank 1) claims refl refl refl in
    next (next both (begin_push 2 7 refl)) (loads_head 2 7 refl)

refuses_full_example : length full.taken + full.queue.size ≤ length full.claims
unfolding init number_nodes node_at difference exchange_head
refuses_full_example =
    refuses_full 0 two-IsSize (omega arith) start-full (omega arith) 2 7 2 (blank 0) refl refl refl
