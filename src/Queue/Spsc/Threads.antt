-- ===== src/Queue/Spsc/Threads.antt =====
-- `SPSCQueue` of core/distribution/lockfree_queue.hpp under two threads: one calls `push`, the other
-- `pop`. A step is one access to what they share: a load or a store of `head_` or `tail_`, or the
-- copy of an item into or out of the buffer. Between two steps of one thread the other may take
-- any number of steps; accesses are seen in the order in which they are made, as the
-- acquire loads and release stores of the code have it for these two threads.
pub mod Holds
pub mod Steps
pub mod Keep
pub mod Linear
use winter_square.Common.{
  ℕ, ◌≡◌, Bool, true, false, List, [], ◌∷◌, ◌++◌, ◌==◌, if◌then◌else◌, set, get_or,
}
use winter_square.Queue.Spsc.{SpscQueue, next_index}

-- Where the producer stands in `push`, with its item and the `head` that it loaded.
pub data Producer (A : Type 0) : Type 0 where
  idle : Producer A
  loaded_head : A → ℕ → Producer A
  found_room : A → ℕ → Producer A
  wrote_item : A → ℕ → Producer A

-- Where the consumer stands in `pop`, with its item and the `tail` that it loaded.
pub data Consumer (A : Type 0) : Type 0 where
  idle : Consumer A
  loaded_tail : A → ℕ → Consumer A
  found_item : A → ℕ → Consumer A
  took_item : A → A → ℕ → Consumer A

-- A call that has returned: its argument, and its answer.
pub data Call (A : Type 0) : Type 0 where
  pushed : A → Bool → Call A
  popped : A → Bool → A → Call A

-- `log` has the calls in the order in which they took effect.
pub record Threads (A : Type 0) : Type 0 where
  pub queue : SpscQueue A
  pub producer : Producer A
  pub consumer : Consumer A
  pub log : List (Call A)

abbrev pub initial : {A : Type 0} → SpscQueue A → Threads A
initial q = record { queue = q; producer = Producer.idle; consumer = Consumer.idle; log = [] }

module _ {A : Type 0} (s : Threads A) where
  -- `if (next_head == tail_.load()) return false;`
  unfoldable pub test_tail : A → ℕ → Threads A
  test_tail x head =
      if next_index s.queue.size head == s.queue.tail
      then record s { producer = Producer.idle; log = s.log ++ pushed x false ∷ [] }
      else record s { producer = Producer.found_room x head }

  -- `buffer_[head] = item;`
  unfoldable pub write_item : A → ℕ → Threads A
  write_item x head = record s {
    queue = record s.queue { buffer = set s.queue.buffer head x };
    producer = Producer.wrote_item x head;
  }

  -- `head_.store(next_head); return true;`
  unfoldable pub store_head : A → ℕ → Threads A
  store_head x head = record s {
    queue = record s.queue { head = next_index s.queue.size head };
    producer = Producer.idle;
    log = s.log ++ pushed x true ∷ [];
  }

  -- `if (tail == head_.load()) return false;`
  unfoldable pub test_head : A → ℕ → Threads A
  test_head item tail =
      if tail == s.queue.head
      then record s { consumer = Consumer.idle; log = s.log ++ popped item false item ∷ [] }
      else record s { consumer = Consumer.found_item item tail }

  -- `item = std::move(buffer_[tail]);`
  unfoldable pub read_item : A → ℕ → Threads A
  read_item item tail = record s {
    consumer = Consumer.took_item item (get_or s.queue.buffer tail item) tail;
  }

  -- `tail_.store((tail + 1) & (Size - 1)); return true;`
  unfoldable pub store_tail : A → A → ℕ → Threads A
  store_tail item out tail = record s {
    queue = record s.queue { tail = next_index s.queue.size tail };
    consumer = Consumer.idle;
    log = s.log ++ popped item true out ∷ [];
  }

-- One step of either thread. A call begins with the load of the thread's own index.
pub data Step {A : Type 0} (s : Threads A) : Threads A → Type 0 where
  begin_push :
      (x : A)
      → s.producer ≡ Producer.idle
      → Step s (record s { producer = Producer.loaded_head x s.queue.head })
  tests_tail :
      (x : A) (head : ℕ) → s.producer ≡ Producer.loaded_head x head → Step s (test_tail s x head)
  writes_item :
      (x : A) (head : ℕ) → s.producer ≡ Producer.found_room x head → Step s (write_item s x head)
  stores_head :
      (x : A) (head : ℕ) → s.producer ≡ Producer.wrote_item x head → Step s (store_head s x head)
  begin_pop :
      (item : A)
      → s.consumer ≡ Consumer.idle
      → Step s (record s { consumer = Consumer.loaded_tail item s.queue.tail })
  tests_head :
      (item : A) (tail : ℕ)
      → s.consumer ≡ Consumer.loaded_tail item tail
      → Step s (test_head s item tail)
  reads_item :
      (item : A) (tail : ℕ)
      → s.consumer ≡ Consumer.found_item item tail
      → Step s (read_item s item tail)
  stores_tail :
      (item out : A) (tail : ℕ)
      → s.consumer ≡ Consumer.took_item item out tail
      → Step s (store_tail s item out tail)

-- Every interleaving of the two threads.
pub data Reach {A : Type 0} (start : Threads A) : Threads A → Type 0 where
  here : Reach start start
  next : {s t : Threads A} → Reach start s → Step s t → Reach start t
