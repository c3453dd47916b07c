-- ===== src/Queue/Mpsc/Lone.antt =====
-- Threads of one `MPSCQueue` that run alone: every run of one thread comes to an end.
use winter_square.Common.{ℕ, ◌≡◌, refl, sym, ap, ◌∙◌, Option, none, some, ◌>>=◌}
use winter_square.Common.Word.{add_u64}
use winter_square.Queue.Mpsc.{
  difference, node_at, Producer, Consumer, Threads, moves, test_push, exchange_head, write_data,
  publish, test_pop, free_node, advance_tail, Step, begin_push, loads_head, loads_sequence,
  tests_push, exchanges, misses, writes, publishes, begin_pop, loads_next, tests_pop, takes, frees,
  advances,
}
use mathlib.Core.Path.{subst}
use mathlib.Core.Option.{some-injective}

-- Whose step it is. A `compare_exchange_weak` that fails is told apart.
pub data Mover : Type 0 where
  consuming : Mover
  producing : ℕ → Mover
  failing : Mover

number : Mover → ℕ
number (producing p) = p
number _ = 0

same_producer : {p k : ℕ} → producing p ≡ producing k → p ≡ k
unfolding number
same_producer e = ap number e

module _ {A : Type 0} where
  abbrev pub mover : {s t : Threads A} → Step s t → Mover
  mover (begin_push p x e) = producing p
  mover (loads_head p x e) = producing p
  mover (loads_sequence p x head node e found) = producing p
  mover (tests_push p x head seq e) = producing p
  mover (exchanges p x head e same) = producing p
  mover (misses p x head e) = failing
  mover (writes p x head e) = producing p
  mover (publishes p x head e) = producing p
  mover (begin_pop item e) = consuming
  mover (loads_next item tail node e found) = consuming
  mover (tests_pop item tail seq e) = consuming
  mover (takes item tail node e found) = consuming
  mover (frees item tail e) = consuming
  mover (advances item tail e) = consuming

  -- Every run of steps of one thread from here comes to a state with `Q`: one has it, or the thread has a step,
  -- and every step that it has leads to such a state.
  pub data Must (m : Mover) (Q : Threads A → Type 0) : Threads A → Type 0 where
    done : {s : Threads A} → Q s → Must m Q s
    goes :
        {s t : Threads A} (step : Step s t)
        → mover step ≡ m
        → ((u : Threads A) (other : Step s u) → mover other ≡ m → Must m Q u)
        → Must m Q s

  -- The thread is in a call.
  abbrev BusyConsumer : Consumer A → Type 0
  BusyConsumer Consumer.idle = ⊥
  BusyConsumer _ = Unit

  abbrev BusyProducer : Producer A → Type 0
  BusyProducer Producer.idle = ⊥
  BusyProducer _ = Unit

  -- The one step that a consumer in a call has.
  consumer_move : Threads A → Consumer A → Option (Threads A)
  consumer_move s Consumer.idle = none
  consumer_move s (Consumer.loaded_tail item tail) = do
    node ← node_at s.queue tail
    some (record s { consumer = Consumer.loaded_sequence item tail node.sequence })
  consumer_move s (Consumer.loaded_sequence item tail seq) =
      some (test_pop s item tail (difference seq (add_u64 tail 1)))
  consumer_move s (Consumer.found item tail) = do
    node ← node_at s.queue tail
    some (record s { consumer = Consumer.took node.content tail })
  consumer_move s (Consumer.took item tail) = some (free_node s item tail)
  consumer_move s (Consumer.freed item tail) = some (advance_tail s item tail)

  consumer_moves :
      {s t : Threads A} (step : Step s t)
      → mover step ≡ consuming
      → BusyConsumer s.consumer
      → consumer_move s s.consumer ≡ some t
  unfolding consumer_move
  consumer_moves (begin_push p x e) m busy = cc
  consumer_moves (loads_head p x e) m busy = cc
  consumer_moves (loads_sequence p x head node e found) m busy = cc
  consumer_moves (tests_push p x head seq e) m busy = cc
  consumer_moves (exchanges p x head e same) m busy = cc
  consumer_moves (misses p x head e) m busy = cc
  consumer_moves (writes p x head e) m busy = cc
  consumer_moves (publishes p x head e) m busy = cc
  consumer_moves (begin_pop item e) m busy = absurd (rw e at busy)
  consumer_moves (loads_next item tail node e found) m busy = rw (e, found) refl
  consumer_moves (tests_pop item tail seq e) m busy = rw e refl
  consumer_moves (takes item tail node e found) m busy = rw (e, found) refl
  consumer_moves (frees item tail e) m busy = rw e refl
  consumer_moves (advances item tail e) m busy = rw e refl

  pub consumer-Must :
      {Q : Threads A → Type 0} {s t : Threads A} (step : Step s t)
      → mover step ≡ consuming
      → BusyConsumer s.consumer
      → Must consuming Q t
      → Must consuming Q s
  consumer-Must {Q = Q} step m busy h = goes step m (λ u other m'.
      subst (Must consuming Q)
        (some-injective _ _ (sym (consumer_moves step m busy) ∙ consumer_moves other m' busy)) h)

  producer_move : ℕ → Threads A → Producer A → Option (Threads A)
  producer_move p s Producer.idle = none
  producer_move p s (Producer.looping x) = some (moves s p (Producer.loaded_head x s.queue.head))
  producer_move p s (Producer.loaded_head x head) = do
    node ← node_at s.queue head
    some (moves s p (Producer.loaded_sequence x head node.sequence))
  producer_move p s (Producer.loaded_sequence x head seq) =
      some (test_push s p x head (difference seq head))
  producer_move p s (Producer.trying x head) = some (exchange_head s p x head)
  producer_move p s (Producer.claimed x head) = some (write_data s p x head)
  producer_move p s (Producer.wrote x head) = some (publish s p x head)

  module _ (p : ℕ) where
    here_is :
        (s : Threads A) {k : ℕ} {place : Producer A}
        → producing k ≡ producing p
        → s.producers k ≡ place
        → s.producers p ≡ place
    here_is s m e = ap s.producers (same_producer (sym m)) ∙ e

    producer_moves :
        {s t : Threads A} (step : Step s t)
        → mover step ≡ producing p
        → BusyProducer (s.producers p)
        → producer_move p s (s.producers p) ≡ some t
    unfolding producer_move
    producer_moves {s = s} (begin_push k x e) m busy = absurd (rw (here_is s m e) at busy)
    producer_moves {s = s} (loads_head k x e) m busy =
        rw (here_is s m e)
          (ap (λ n. some (moves s n (Producer.loaded_head x s.queue.head))) (same_producer (sym m)))
    producer_moves {s = s} (loads_sequence k x head node e found) m busy =
        rw (here_is s m e, found)
          (ap (λ n. some (moves s n (Producer.loaded_sequence x head node.sequence)))
            (same_producer (sym m)))
    producer_moves {s = s} (tests_push k x head seq e) m busy =
        rw (here_is s m e)
          (ap (λ n. some (test_push s n x head (difference seq head))) (same_producer (sym m)))
    producer_moves {s = s} (exchanges k x head e same) m busy =
        rw (here_is s m e) (ap (λ n. some (exchange_head s n x head)) (same_producer (sym m)))
    producer_moves (misses k x head e) m busy = cc
    producer_moves {s = s} (writes k x head e) m busy =
        rw (here_is s m e) (ap (λ n. some (write_data s n x head)) (same_producer (sym m)))
    producer_moves {s = s} (publishes k x head e) m busy =
        rw (here_is s m e) (ap (λ n. some (publish s n x head)) (same_producer (sym m)))
    producer_moves (begin_pop item e) m busy = cc
    producer_moves (loads_next item tail node e found) m busy = cc
    producer_moves (tests_pop item tail seq e) m busy = cc
    producer_moves (takes item tail node e found) m busy = cc
    producer_moves (frees item tail e) m busy = cc
    producer_moves (advances item tail e) m busy = cc

    pub producer-Must :
        {Q : Threads A → Type 0} {s t : Threads A} (step : Step s t)
        → mover step ≡ producing p
        → BusyProducer (s.producers p)
        → Must (producing p) Q t
        → Must (producing p) Q s
    producer-Must {Q = Q} step m busy h = goes step m (λ u other m'.
        subst (Must (producing p) Q)
          (some-injective _ _ (sym (producer_moves step m busy) ∙ producer_moves other m' busy)) h)
