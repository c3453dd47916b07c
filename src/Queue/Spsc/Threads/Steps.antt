-- ===== src/Queue/Spsc/Threads/Steps.antt =====
-- Each step of either thread keeps what holds of both.
use winter_square.Common.{
  ℕ, zero, suc, ◌≡◌, ◌≢◌, refl, sym, ap, ◌∙◌, List, [], ◌∷◌, ◌++◌, none, some, arith, length-set,
  set, get_elem?-set_ne,
}
use winter_square.Queue.Spsc.{SpscQueue}
use winter_square.Queue.Spsc.Ring.{step, IsValid, distance}
use winter_square.Queue.Spsc.Window.{window-set, step-lt}
use winter_square.Queue.Spsc.Refine.{contents, head-ahead, distance-lt, contents-pushed}
use winter_square.Queue.Spsc.Threads.{Producer, Consumer}
use winter_square.Queue.Spsc.Threads.Holds.{ProducerHolds, ConsumerHolds}

pub set_twice : {A : Type 0} (xs : List A) (i : ℕ) (x : A) → set (set xs i x) i x ≡ set xs i x
set_twice [] i x = refl
set_twice (y ∷ ys) zero x = refl
set_twice (y ∷ ys) (suc i) x = ap (λ r. y ∷ r) (set_twice ys i x)

-- The queue after each of the three writes to what the threads share.
module _ {A : Type 0} (q : SpscQueue A) where
  abbrev pub written : A → SpscQueue A
  written x = record q { buffer = set q.buffer q.head x }

  abbrev pub head_stored : SpscQueue A
  head_stored = record q { head = step q.size q.head }

  abbrev pub tail_stored : SpscQueue A
  tail_stored = record q { tail = step q.size q.tail }

module _ {A : Type 0} {q : SpscQueue A} (v : IsValid q) where
  pub written-IsValid : (x : A) → IsValid (written q x)
  written-IsValid x = record {
    is_size = v.is_size;
    head_in = v.head_in;
    tail_in = v.tail_in;
    room = length-set q.buffer q.head x ∙ v.room;
  }

  pub head_stored-IsValid : IsValid (head_stored q)
  head_stored-IsValid = record {
    is_size = v.is_size;
    head_in = step-lt q.size q.head v.head_in;
    tail_in = v.tail_in;
    room = v.room;
  }

  pub tail_stored-IsValid : IsValid (tail_stored q)
  tail_stored-IsValid = record {
    is_size = v.is_size;
    head_in = v.head_in;
    tail_in = step-lt q.size q.tail v.tail_in;
    room = v.room;
  }

  -- The slot at `head` is outside the contents.
  pub contents-written : (x : A) → contents (written q x) ≡ contents q
  unfolding distance
  contents-written x =
      window-set q.size q.buffer x q.tail (distance q) (distance q) q.head v.tail_in (omega arith)
        (distance-lt v) (head-ahead v)

  pub contents-head_stored :
      (x : A)
      → step q.size q.head ≢ q.tail
      → set q.buffer q.head x ≡ q.buffer
      → contents (head_stored q) ≡ contents q ++ x ∷ []
  unfolding distance
  contents-head_stored x ne stands =
      ap (λ b. contents (record q { buffer = b; head = step q.size q.head })) (sym stands)
      ∙ contents-pushed v x ne

  -- A write by one thread does not change what the other knows.
  pub written-ConsumerHolds :
      (x : A) (c : Consumer A) → ConsumerHolds q c → ConsumerHolds (written q x) c
  written-ConsumerHolds x Consumer.idle h = tt
  written-ConsumerHolds x (Consumer.loaded_tail item tail) h = h
  written-ConsumerHolds x (Consumer.found_item item tail) h = h
  written-ConsumerHolds x (Consumer.took_item item out tail) (e, ne, stands) = (
    e,
    ne,
    ap (λ o. elim o [ none ↦ [] | some y ↦ y ∷ [] ]) (get_elem?-set_ne q.buffer x (λ p. ne (sym p)))
        ∙ stands,
  )

  pub head_stored-ConsumerHolds :
      (c : Consumer A)
      → step q.size q.head ≢ q.tail
      → ConsumerHolds q c
      → ConsumerHolds (head_stored q) c
  head_stored-ConsumerHolds Consumer.idle ne h = tt
  head_stored-ConsumerHolds (Consumer.loaded_tail item tail) ne h = h
  head_stored-ConsumerHolds (Consumer.found_item item tail) ne h = (h.0, λ e. ne (sym e))
  head_stored-ConsumerHolds (Consumer.took_item item out tail) ne h = (h.0, (λ e. ne (sym e)), h.2)

  step-ne : q.tail ≢ q.head → step q.size q.head ≢ step q.size q.tail
  step-ne ne = ground arith

  pub tail_stored-ProducerHolds :
      (p : Producer A) → q.tail ≢ q.head → ProducerHolds q p → ProducerHolds (tail_stored q) p
  tail_stored-ProducerHolds Producer.idle ne h = tt
  tail_stored-ProducerHolds (Producer.loaded_head x head) ne h = h
  tail_stored-ProducerHolds (Producer.found_room x head) ne h = (h.0, step-ne ne)
  tail_stored-ProducerHolds (Producer.wrote_item x head) ne h = (h.0, step-ne ne, h.2)
