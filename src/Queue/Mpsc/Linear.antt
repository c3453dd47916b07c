-- ===== src/Queue/Mpsc/Linear.antt =====
-- What any interleaving of the threads of one `MPSCQueue` shows.
use winter_square.Common.{
  get_elem?-lt, ℕ, ◌+◌, ◌^◌, ◌≤◌, ◌<◌, ◌≡◌, ◌≢◌, sym, ap, ◌∙◌, ◌++◌, some, arith, length, get_elem?,
  inl, inr, ◌⊎◌, take, drop, take-append-drop, bit_and,
}
use winter_square.Common.Word.{add_u64}
use winter_square.Queue.Spsc.{mask}
use winter_square.Queue.Spsc.Ring.{IsSize}
use winter_square.Queue.Mpsc.{
  Node, Sign, difference, init, node_at, Producer, Consumer, Threads, initial, Reach,
}
use winter_square.Queue.Mpsc.Slots.{
  difference_negative, difference_same, difference_below, indices_apart,
}
use winter_square.Queue.Mpsc.Holds.{freed_by, place, Claimed, ConsumerHolds, Holds}
use winter_square.Queue.Mpsc.Moves.{holds_at, sequence-window}
use winter_square.Queue.Mpsc.Frame.{Published-Waits}
use winter_square.Queue.Mpsc.Frees.{consumer_at}
use mathlib.Core.Option.{some-injective}
use winter_square.Queue.Mpsc.Keep.{initial-Holds, Reach-Holds}

module _ {A : Type 0} {size : ℕ} (default : A) (is_size : IsSize size) (two : 2 ≤ size)
    {s : Threads A} (r : Reach (initial (init size default)) s)
    (small : length s.claims + s.queue.size < 2 ^ 63) where
  pub held : Holds s
  held = Reach-Holds r small (initial-Holds default is_size two)

  -- In a reachable state of a queue of two nodes at least, when fewer than 2 ^ 63 places were
  -- claimed, the nodes counted with them: the items that `pop` returned, in this order, are the
  -- first of those that the producers claimed places for, in that order. None is lost, duplicated,
  -- invented or overtaken.
  pub takes_in_order : s.taken ++ drop (length s.taken) s.claims ≡ s.claims
  takes_in_order =
      ap (λ xs. xs ++ drop (length s.taken) s.claims)
        (held.taken_lem ∙ ap (λ n. take n s.claims) held.tail_lem)
      ∙ take-append-drop (length s.taken) s.claims

  -- In a reachable state of a queue of two nodes at least, when fewer than 2 ^ 63 places were
  -- claimed, the nodes counted with them: if a producer that has loaded the head is to see a
  -- sequence below it, and hence to refuse its item, then at least as many items as the queue has
  -- nodes are claimed and not yet returned, also when the head that it has loaded is no longer the
  -- head.
  pub refuses_full :
      (p : ℕ) (x : A) (head : ℕ) (node : Node A)
      → s.producers p ≡ Producer.loaded_head x head
      → node_at s.queue head ≡ some node
      → difference node.sequence head ≡ Sign.negative
      → length s.taken + s.queue.size ≤ length s.claims
  refuses_full p x head node e found negative =
      let (t, lo, hi, below, above, apart) = sequence-window held head node found in
      let le : head ≤ s.queue.head = holds_at held p e in
      let less : node.sequence < head =
        difference_negative node.sequence head (omega (arith, held)) (omega (arith, held))
          negative in
      omega (arith, held, apart (omega arith))

  -- In a reachable state of a queue of two nodes at least, when fewer than 2 ^ 63 places were
  -- claimed, the nodes counted with them: if two producers are about to write nodes and the
  -- consumer is about to read one, then the first producer's node exists, and is neither that of
  -- the second nor that of the consumer.
  pub writers_apart :
      (p q : ℕ) (x y item : A) (a b tail : ℕ)
      → s.producers p ≡ Producer.claimed x a
      → s.producers q ≡ Producer.claimed y b
      → p ≢ q
      → s.consumer ≡ Consumer.found item tail
      → ((node : Node A) × (node_at s.queue a ≡ some node))
        × (bit_and a (mask s.queue.size) ≢ bit_and b (mask s.queue.size))
        × (bit_and a (mask s.queue.size) ≢ bit_and tail (mask s.queue.size))
  writers_apart p q x y item a b tail ep eq ne ec =
      let low = s.queue.tail + freed_by s.consumer in
      let c : Claimed s.queue s.claims low a x = holds_at held p ep in
      let d : Claimed s.queue s.claims low b y = holds_at held q eq in
      let (at, u) : ConsumerHolds s.queue s.claims (Consumer.found item tail) =
        consumer_at held ec in
      let zero : freed_by s.consumer ≡ 0 = ap freed_by ec in
      let in_a = get_elem?-lt s.claims a c.claim in
      let in_b = get_elem?-lt s.claims b d.claim in
      (
        (c.waits.node, c.waits.found),
        indices_apart s.queue held.is_size low a b c.not_free (omega (arith, held)) d.not_free
            (omega (arith, held))
            (λ same. ne (held.distinct p q a (ap place ep) (ap place eq ∙ ap some (sym same)))),
        indices_apart s.queue held.is_size low a tail c.not_free (omega (arith, held))
            (omega (arith, zero)) (omega (arith, zero, held.two))
            (λ same. Published-Waits s.queue s.claims tail a u c.waits (sym same)),
      )

  -- In a reachable state of a queue of two nodes at least, when fewer than 2 ^ 63 places were
  -- claimed, the nodes counted with them: the consumer, when it has loaded the tail and is to load
  -- its node's sequence, is at the place of the next item to return. Either it will find the node
  -- published, and the node holds that item, or the sequence is the number of the place, and it
  -- will find nothing, also when producers of later places have published theirs.
  pub pop_follows :
      (item : A) (tail : ℕ) (node : Node A)
      → s.consumer ≡ Consumer.loaded_tail item tail
      → node_at s.queue tail ≡ some node
      → (tail ≡ length s.taken)
        × (((difference node.sequence (add_u64 tail 1) ≡ Sign.zero_sign)
              × (get_elem? s.claims tail ≡ some node.content))
            ⊎ ((difference node.sequence (add_u64 tail 1) ≡ Sign.negative)
                × (node.sequence ≡ tail)))
  pop_follows item tail node e found =
      let at : tail ≡ s.queue.tail = consumer_at held e in
      let zero : freed_by s.consumer ≡ 0 = ap freed_by e in
      (
        omega (arith, held),
        elim (held.slots tail (omega (arith, zero)) (omega (arith, zero, held.two))) [
          | inl w ↦
              let seq : node.sequence ≡ tail =
                ap (λ n. n.sequence) (some-injective _ _ (sym found ∙ w.found)) ∙ w.waiting in
              inr (
                difference_below node.sequence (add_u64 tail 1) (omega (arith, held))
                    (omega (arith, held)) (omega (arith, held)),
                seq,
              )
          | inr u ↦
              let same : u.node ≡ node = some-injective _ _ (sym u.found ∙ found) in
              let seq : node.sequence ≡ tail + 1 = ap (λ n. n.sequence) (sym same) ∙ u.ready in
              let below = get_elem?-lt s.claims tail u.right in
              inl (
                difference_same node.sequence (add_u64 tail 1) (omega (arith, held))
                    (omega (arith, held)) (omega (arith, held)),
                u.right ∙ ap (λ n. some n.content) same,
              )
        ],
      )
