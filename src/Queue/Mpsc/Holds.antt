-- ===== src/Queue/Mpsc/Holds.antt =====
-- What holds of `MPSCQueue` and its threads between any two steps.
use winter_square.Common.{
  ℕ, ◌+◌, ◌^◌, ◌≤◌, ◌<◌, ◌≡◌, ◌⊎◌, List, Option, some, none, get_elem?, length, take,
}
use winter_square.Queue.Spsc.Ring.{IsSize}
use winter_square.Queue.Mpsc.{Node, MpscQueue, node_at, Producer, Consumer, Threads}

module _ {A : Type 0} where
  -- The first place that is not free again: `pop` frees the node before it moves the tail.
  abbrev pub freed_by : Consumer A → ℕ
  freed_by (Consumer.freed item tail) = 1
  freed_by _ = 0

  -- The place that a producer has claimed and not published.
  abbrev pub place : Producer A → Option ℕ
  place (Producer.claimed x head) = some head
  place (Producer.wrote x head) = some head
  place _ = none

  -- A node that waits for its place: for the head to reach it, or for its producer to publish.
  pub record Waits (q : MpscQueue A) (t : ℕ) : Type 0 where
    pub node : Node A
    pub found : node_at q t ≡ some node
    pub waiting : node.sequence ≡ t

  module _ (q : MpscQueue A) (claims : List A) where
    -- A node with the item of its place.
    pub record Published (t : ℕ) : Type 0 where
      pub node : Node A
      pub found : node_at q t ≡ some node
      pub ready : node.sequence ≡ t + 1
      pub right : get_elem? claims t ≡ some node.content

    -- A node of which its producer has a claim.
    pub record Claimed (low t : ℕ) (x : A) : Type 0 where
      pub not_free : low ≤ t
      pub claim : get_elem? claims t ≡ some x
      pub waits : Waits q t

    abbrev pub ProducerHolds : ℕ → Producer A → Type 0
    ProducerHolds low Producer.idle = Unit
    ProducerHolds low (Producer.looping x) = Unit
    ProducerHolds low (Producer.loaded_head x head) = head ≤ q.head
    ProducerHolds low (Producer.loaded_sequence x head seq) =
        (seq < 2 ^ 63) × (head ≤ q.head) × (seq ≡ head → head < low + q.size)
    ProducerHolds low (Producer.trying x head) = head < low + q.size
    ProducerHolds low (Producer.claimed x head) = Claimed low head x
    ProducerHolds low (Producer.wrote x head) =
        (c : Claimed low head x) × (c.waits.node.content ≡ x)

    abbrev pub ConsumerHolds : Consumer A → Type 0
    ConsumerHolds Consumer.idle = Unit
    ConsumerHolds (Consumer.loaded_tail item tail) = tail ≡ q.tail
    ConsumerHolds (Consumer.loaded_sequence item tail seq) =
        (seq < 2 ^ 63) × (tail ≡ q.tail) × (seq ≡ tail + 1 → Published tail)
    ConsumerHolds (Consumer.found item tail) = (tail ≡ q.tail) × Published tail
    ConsumerHolds (Consumer.took item tail) =
        (tail ≡ q.tail) × Published tail × (get_elem? claims tail ≡ some item)
    ConsumerHolds (Consumer.freed item tail) = (tail ≡ q.tail) × (get_elem? claims tail ≡ some item)

pub record Holds {A : Type 0} (s : Threads A) : Type 0 where
  pub is_size : IsSize s.queue.size
  pub two : 2 ≤ s.queue.size
  pub head_lem : s.queue.head ≡ length s.claims
  pub tail_lem : s.queue.tail ≡ length s.taken
  pub order : s.queue.tail + freed_by s.consumer ≤ s.queue.head
  pub room : s.queue.head ≤ s.queue.tail + freed_by s.consumer + s.queue.size
  pub slots :
      (t : ℕ)
      → s.queue.tail + freed_by s.consumer ≤ t
      → t < s.queue.tail + freed_by s.consumer + s.queue.size
      → Waits s.queue t ⊎ Published s.queue s.claims t
  pub producing :
      (p : ℕ) → ProducerHolds s.queue s.claims (s.queue.tail + freed_by s.consumer) (s.producers p)
  pub distinct :
      (p q t : ℕ) → place (s.producers p) ≡ some t → place (s.producers q) ≡ some t → p ≡ q
  pub consuming : ConsumerHolds s.queue s.claims s.consumer
  pub taken_lem : s.taken ≡ take s.queue.tail s.claims
