-- ===== src/Queue/Spsc/Threads/Holds.antt =====
-- What holds between two steps of the producer and the consumer of one ring.
use winter_square.Common.{ℕ, ◌≡◌, ◌≢◌, refl, Bool, List, [], ◌∷◌, ◌++◌, set}
use winter_square.Queue.Fifo
use winter_square.Queue.Spsc.{SpscQueue, capacity}
use winter_square.Queue.Spsc.Ring.{step, IsValid}
use winter_square.Queue.Spsc.Window.{at}
use winter_square.Queue.Spsc.Refine.{contents}
use winter_square.Queue.Spsc.Threads.{Producer, Consumer, Call, pushed, popped, Threads}

module _ {A : Type 0} where
  -- The FIFO of at most `cap` items answers the calls of the log as the log says, and goes from `xs`
  -- to `ys`.
  abbrev pub Explains : ℕ → List A → List (Call A) → List A → Type 0
  Explains cap xs [] ys = xs ≡ ys
  Explains cap xs (pushed x b ∷ log) ys =
      ((Fifo.push cap xs x).0 ≡ b) × Explains cap (Fifo.push cap xs x).1 log ys
  Explains cap xs (popped item b out ∷ log) ys =
      ((Fifo.pop xs item).0 ≡ b)
      × ((Fifo.pop xs item).1 ≡ out)
      × Explains cap (Fifo.pop xs item).2 log ys

  pub Explains-push :
      (cap : ℕ) (log : List (Call A)) (xs ys : List A) (x : A) (b : Bool)
      → Explains cap xs log ys
      → (Fifo.push cap ys x).0 ≡ b
      → Explains cap xs (log ++ pushed x b ∷ []) (Fifo.push cap ys x).1
  Explains-push cap [] xs ys x b h e = rw h (e, refl)
  Explains-push cap (pushed z c ∷ log) xs ys x b h e = (h.0, Explains-push cap log _ ys x b h.1 e)
  Explains-push cap (popped item c out ∷ log) xs ys x b h e =
      (h.0, h.1, Explains-push cap log _ ys x b h.2 e)

  pub Explains-pop :
      (cap : ℕ) (log : List (Call A)) (xs ys : List A) (item out : A) (b : Bool)
      → Explains cap xs log ys
      → (Fifo.pop ys item).0 ≡ b
      → (Fifo.pop ys item).1 ≡ out
      → Explains cap xs (log ++ popped item b out ∷ []) (Fifo.pop ys item).2
  Explains-pop cap [] xs ys item out b h e f = rw h (e, f, refl)
  Explains-pop cap (pushed z c ∷ log) xs ys item out b h e f =
      (h.0, Explains-pop cap log _ ys item out b h.1 e f)
  Explains-pop cap (popped i c o ∷ log) xs ys item out b h e f =
      (h.0, h.1, Explains-pop cap log _ ys item out b h.2 e f)

  -- What the producer knows: its index, that the slot there is free, and that its item stands there.
  abbrev pub ProducerHolds : SpscQueue A → Producer A → Type 0
  ProducerHolds q Producer.idle = Unit
  ProducerHolds q (Producer.loaded_head x head) = head ≡ q.head
  ProducerHolds q (Producer.found_room x head) = (head ≡ q.head) × (step q.size q.head ≢ q.tail)
  ProducerHolds q (Producer.wrote_item x head) =
      (head ≡ q.head) × (step q.size q.head ≢ q.tail) × (set q.buffer q.head x ≡ q.buffer)

  -- What the consumer knows: its index, that the slot there is taken, and what stands there.
  abbrev pub ConsumerHolds : SpscQueue A → Consumer A → Type 0
  ConsumerHolds q Consumer.idle = Unit
  ConsumerHolds q (Consumer.loaded_tail item tail) = tail ≡ q.tail
  ConsumerHolds q (Consumer.found_item item tail) = (tail ≡ q.tail) × (q.tail ≢ q.head)
  ConsumerHolds q (Consumer.took_item item out tail) =
      (tail ≡ q.tail) × (q.tail ≢ q.head) × (at q.buffer q.tail ≡ out ∷ [])

  pub record Holds (cap : ℕ) (s : Threads A) : Type 0 where
    pub valid : IsValid s.queue
    pub capacity_lem : capacity s.queue ≡ cap
    pub producing : ProducerHolds s.queue s.producer
    pub consuming : ConsumerHolds s.queue s.consumer
    pub explained : Explains cap [] s.log (contents s.queue)
