-- ===== src/Queue/Mpsc.antt =====
-- `MPSCQueue` of core/distribution/lockfree_queue.hpp under any number of producers, numbered, and one
-- consumer. A step is one access to what they share: an atomic load, store or exchange, or the copy
-- of an item into or out of a node. Between two steps of one thread the others may take any number
-- of steps; accesses are seen in the order in which they are made, as the acquire loads and release
-- stores of a node's sequence have it for the item that it guards.
-- `size_t` wraps at 2 ^ 64, and the sign of a difference is that of `intptr_t` where it does not
-- overflow.
pub mod Slots
pub mod Holds
pub mod Moves
pub mod Frame
pub mod Claims
pub mod Frees
pub mod Keep
pub mod Linear
pub mod Lone
pub mod Progress
use winter_square.Common.{
  set_entry, ℕ, zero, suc, ◌+◌, ◌^◌, ◌≡◌, Bool, true, false, List, [], ◌∷◌, ◌++◌, ◌==◌,
  if◌then◌else◌, Option, some, none, bit_and, ltb, get_elem?, ◌>>=◌,
}
use winter_square.Common.Word.{add_u64, sub_u64}
use winter_square.Queue.Spsc.{mask}

-- `content` is the field `data`.
pub record Node (A : Type 0) : Type 0 where
  pub sequence : ℕ
  pub content : A

pub record MpscQueue (A : Type 0) : Type 0 where
  pub size : ℕ
  pub head : ℕ
  pub tail : ℕ
  pub nodes : List (Node A)

-- The sign of `(intptr_t)a - (intptr_t)b`.
pub data Sign : Type 0 where
  negative zero_sign positive : Sign

unfoldable pub difference : ℕ → ℕ → Sign
difference a b =
    let d = sub_u64 a b in
    if d == 0 then Sign.zero_sign else (if ltb d (2 ^ 63) then Sign.positive else Sign.negative)

-- A change of one element; none if there is no such element.
unfoldable pub update {ℓ} : {A : Type ℓ} → List A → ℕ → (A → A) → List A
update [] i f = []
update (x ∷ xs) zero f = f x ∷ xs
update (x ∷ xs) (suc i) f = x ∷ update xs i f

module _ {A : Type 0} where
  -- The loop of the constructor.
  unfoldable pub number_nodes : ℕ → ℕ → A → List (Node A)
  number_nodes zero i default = []
  number_nodes (suc left) i default =
      record { sequence = i; content = default } ∷ number_nodes left (i + 1) default

  unfoldable pub init : ℕ → A → MpscQueue A
  unfolding number_nodes
  init size default = record {
    size = size;
    head = 0;
    tail = 0;
    nodes = number_nodes size 0 default;
  }

  -- `nodes_[position & (Size - 1)]`; `none` is an index outside `nodes_`.
  unfoldable pub node_at : MpscQueue A → ℕ → Option (Node A)
  node_at q position = get_elem? q.nodes (bit_and position (mask q.size))

  unfoldable pub change_node : MpscQueue A → ℕ → (Node A → Node A) → MpscQueue A
  unfolding update
  change_node q position f = record q { nodes = update q.nodes (bit_and position (mask q.size)) f }

abbrev is_negative : Sign → Bool
is_negative Sign.negative = true
is_negative _ = false

module _ {A : Type 0} where
  -- `none` is a read outside `nodes_`.
  unfoldable pub empty : MpscQueue A → Option Bool
  unfolding node_at difference
  empty q = do
    node ← node_at q q.tail
    some (is_negative (difference node.sequence (add_u64 q.tail 1)))

-- Where a producer stands in `push`, with its item, `head` and `seq`.
pub data Producer (A : Type 0) : Type 0 where
  idle : Producer A
  looping : A → Producer A
  loaded_head : A → ℕ → Producer A
  loaded_sequence : A → ℕ → ℕ → Producer A
  trying : A → ℕ → Producer A
  claimed : A → ℕ → Producer A
  wrote : A → ℕ → Producer A

-- Where the consumer stands in `pop`, with `tail` and `seq`; `item` is what it is given and, once it
-- is taken, what it returns.
pub data Consumer (A : Type 0) : Type 0 where
  idle : Consumer A
  loaded_tail : A → ℕ → Consumer A
  loaded_sequence : A → ℕ → ℕ → Consumer A
  found : A → ℕ → Consumer A
  took : A → ℕ → Consumer A
  freed : A → ℕ → Consumer A

-- `claims` has the items of the producers that moved the head, in that order, and `taken` those that
-- `pop` returned.
pub record Threads (A : Type 0) : Type 0 where
  pub queue : MpscQueue A
  pub producers : ℕ → Producer A
  pub consumer : Consumer A
  pub claims : List A
  pub taken : List A

abbrev pub initial : {A : Type 0} → MpscQueue A → Threads A
initial q = record {
  queue = q;
  producers = λ p. Producer.idle;
  consumer = Consumer.idle;
  claims = [];
  taken = [];
}

module _ {A : Type 0} (s : Threads A) where
  abbrev pub moves : ℕ → Producer A → Threads A
  moves p here = record s { producers = set_entry p here s.producers }

  -- The tests of `diff` in `push`.
  unfoldable pub test_push : ℕ → A → ℕ → Sign → Threads A
  test_push p x head Sign.zero_sign = moves p (Producer.trying x head)
  test_push p x head Sign.negative = moves p Producer.idle
  test_push p x head Sign.positive = moves p (Producer.looping x)

  -- `compare_exchange_weak(head, head + 1)`, when it succeeds.
  unfoldable pub exchange_head : ℕ → A → ℕ → Threads A
  exchange_head p x head = record s {
    queue = record s.queue { head = add_u64 head 1 };
    producers = set_entry p (Producer.claimed x head) s.producers;
    claims = s.claims ++ x ∷ [];
  }

  -- `node.data = item;`
  unfoldable pub write_data : ℕ → A → ℕ → Threads A
  unfolding change_node
  write_data p x head = record s {
    queue = change_node s.queue head (λ node. record node { content = x });
    producers = set_entry p (Producer.wrote x head) s.producers;
  }

  -- `node.sequence.store(head + 1); return true;`
  unfoldable pub publish : ℕ → A → ℕ → Threads A
  unfolding change_node
  publish p x head = record s {
    queue = change_node s.queue head (λ node. record node { sequence = add_u64 head 1 });
    producers = set_entry p Producer.idle s.producers;
  }

  -- The test of `diff` in `pop`.
  unfoldable pub test_pop : A → ℕ → Sign → Threads A
  test_pop item tail Sign.zero_sign = record s { consumer = Consumer.found item tail }
  test_pop item tail _ = record s { consumer = Consumer.idle }

  -- `node.sequence.store(tail + Size);`
  unfoldable pub free_node : A → ℕ → Threads A
  unfolding change_node
  free_node item tail = record s {
    queue = change_node s.queue tail (λ node. record node { sequence = add_u64 tail s.queue.size });
    consumer = Consumer.freed item tail;
  }

  -- `tail_.store(tail + 1); return true;`
  unfoldable pub advance_tail : A → ℕ → Threads A
  advance_tail item tail = record s {
    queue = record s.queue { tail = add_u64 tail 1 };
    consumer = Consumer.idle;
    taken = s.taken ++ item ∷ [];
  }

-- One step of a producer `p` or of the consumer. The weak exchange may fail for no reason.
pub data Step {A : Type 0} (s : Threads A) : Threads A → Type 0 where
  begin_push :
      (p : ℕ) (x : A) → s.producers p ≡ Producer.idle → Step s (moves s p (Producer.looping x))
  loads_head :
      (p : ℕ) (x : A)
      → s.producers p ≡ Producer.looping x
      → Step s (moves s p (Producer.loaded_head x s.queue.head))
  loads_sequence :
      (p : ℕ) (x : A) (head : ℕ) (node : Node A)
      → s.producers p ≡ Producer.loaded_head x head
      → node_at s.queue head ≡ some node
      → Step s (moves s p (Producer.loaded_sequence x head node.sequence))
  tests_push :
      (p : ℕ) (x : A) (head seq : ℕ)
      → s.producers p ≡ Producer.loaded_sequence x head seq
      → Step s (test_push s p x head (difference seq head))
  exchanges :
      (p : ℕ) (x : A) (head : ℕ)
      → s.producers p ≡ Producer.trying x head
      → s.queue.head ≡ head
      → Step s (exchange_head s p x head)
  misses :
      (p : ℕ) (x : A) (head : ℕ)
      → s.producers p ≡ Producer.trying x head
      → Step s (moves s p (Producer.looping x))
  writes :
      (p : ℕ) (x : A) (head : ℕ)
      → s.producers p ≡ Producer.claimed x head
      → Step s (write_data s p x head)
  publishes :
      (p : ℕ) (x : A) (head : ℕ)
      → s.producers p ≡ Producer.wrote x head
      → Step s (publish s p x head)
  begin_pop :
      (item : A)
      → s.consumer ≡ Consumer.idle
      → Step s (record s { consumer = Consumer.loaded_tail item s.queue.tail })
  loads_next :
      (item : A) (tail : ℕ) (node : Node A)
      → s.consumer ≡ Consumer.loaded_tail item tail
      → node_at s.queue tail ≡ some node
      → Step s (record s { consumer = Consumer.loaded_sequence item tail node.sequence })
  tests_pop :
      (item : A) (tail seq : ℕ)
      → s.consumer ≡ Consumer.loaded_sequence item tail seq
      → Step s (test_pop s item tail (difference seq (add_u64 tail 1)))
  takes :
      (item : A) (tail : ℕ) (node : Node A)
      → s.consumer ≡ Consumer.found item tail
      → node_at s.queue tail ≡ some node
      → Step s (record s { consumer = Consumer.took node.content tail })
  frees :
      (item : A) (tail : ℕ) → s.consumer ≡ Consumer.took item tail → Step s (free_node s item tail)
  advances :
      (item : A) (tail : ℕ)
      → s.consumer ≡ Consumer.freed item tail
      → Step s (advance_tail s item tail)

-- Every interleaving.
pub data Reach {A : Type 0} (start : Threads A) : Threads A → Type 0 where
  here : Reach start start
  next : {s t : Threads A} → Reach start s → Step s t → Reach start t
