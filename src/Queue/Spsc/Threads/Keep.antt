-- ===== src/Queue/Spsc/Threads/Keep.antt =====
-- Each step of either thread keeps what holds of the queue and of both threads.
use winter_square.Common.{
  ℕ, ◌≡◌, ◌≢◌, refl, sym, ap, ◌∙◌, true, false, [], ◌∷◌, ◌++◌, arith, length, set, get_or, ==-yes,
  ==-no, ℕ_discrete, ltb,
}
use winter_square.Queue.Fifo
use winter_square.Queue.Spsc.{capacity}
use winter_square.Queue.Spsc.Ring.{step, indices}
use winter_square.Queue.Spsc.Window.{at, at-get_or}
use winter_square.Queue.Spsc.Refine.{contents, empty_iff, contents-popped, no_room, has_room}
use winter_square.Queue.Spsc.Threads.{
  Threads, test_tail, write_item, store_head, test_head, read_item, store_tail, Step, begin_push,
  tests_tail, writes_item, stores_head, begin_pop, tests_head, reads_item, stores_tail,
}
use winter_square.Queue.Spsc.Threads.Holds.{Explains-push, Explains-pop, Holds}
use winter_square.Queue.Spsc.Threads.Steps.{
  tail_stored, written-IsValid, head_stored-IsValid, tail_stored-IsValid, contents-written,
  contents-head_stored, written-ConsumerHolds, head_stored-ConsumerHolds, tail_stored-ProducerHolds,
  set_twice,
}

module _ {A : Type 0} {cap : ℕ} {s : Threads A} (h : Holds cap s) where
  -- The queue's answer to the producer's test is the FIFO's.
  full_answer :
      (x : A)
      → step s.queue.size s.queue.head ≡ s.queue.tail
      → Fifo.push cap (contents s.queue) x ≡ (false, contents s.queue)
  unfolding Fifo.push
  full_answer x e =
      rw (ap (ltb (length (contents s.queue))) (sym h.capacity_lem) ∙ no_room h.valid e)

  room_answer :
      (x : A)
      → step s.queue.size s.queue.head ≢ s.queue.tail
      → Fifo.push cap (contents s.queue) x ≡ (true, contents s.queue ++ x ∷ [])
  unfolding Fifo.push
  room_answer x ne =
      rw (ap (ltb (length (contents s.queue))) (sym h.capacity_lem) ∙ has_room h.valid ne)

  test_tail-Holds : (x : A) (head : ℕ) → head ≡ s.queue.head → Holds cap (test_tail s x head)
  unfolding test_tail
  test_tail-Holds x head e = elim (ℕ_discrete (step s.queue.size s.queue.head) s.queue.tail) [
    | yes full ↦
        rw (e, (indices h.valid).next_head, ==-yes full)
          (record {
            valid = h.valid;
            capacity_lem = h.capacity_lem;
            producing = tt;
            consuming = h.consuming;
            explained = rw (ap (λ r. r.1) (full_answer x full)) at (
                Explains-push cap s.log [] (contents s.queue) x false h.explained
                  (ap (λ r. r.0) (full_answer x full)));
          })
    | no ne ↦
        rw (e, (indices h.valid).next_head, ==-no ne)
          (record {
            valid = h.valid;
            capacity_lem = h.capacity_lem;
            producing = (refl, ne);
            consuming = h.consuming;
            explained = h.explained;
          })
  ]

  write_item-Holds :
      (x : A) (head : ℕ)
      → (head ≡ s.queue.head) × (step s.queue.size s.queue.head ≢ s.queue.tail)
      → Holds cap (write_item s x head)
  unfolding write_item capacity
  write_item-Holds x head (e, ne) = rw e (record {
    valid = written-IsValid h.valid x;
    capacity_lem = h.capacity_lem;
    producing = (refl, ne, set_twice s.queue.buffer s.queue.head x);
    consuming = written-ConsumerHolds h.valid x s.consumer h.consuming;
    explained = rw (contents-written h.valid x) h.explained;
  })

  store_head-Holds :
      (x : A) (head : ℕ)
      → (head ≡ s.queue.head)
        × (step s.queue.size s.queue.head ≢ s.queue.tail)
        × (set s.queue.buffer s.queue.head x ≡ s.queue.buffer)
      → Holds cap (store_head s x head)
  unfolding store_head capacity
  store_head-Holds x head (e, ne, stands) =
      rw (e, (indices h.valid).next_head)
        (record {
          valid = head_stored-IsValid h.valid;
          capacity_lem = h.capacity_lem;
          producing = tt;
          consuming = head_stored-ConsumerHolds h.valid s.consumer ne h.consuming;
          explained =
              rw (contents-head_stored h.valid x ne stands, ← ap (λ r. r.1) (room_answer x ne))
                (Explains-push cap s.log [] (contents s.queue) x true h.explained
                  (ap (λ r. r.0) (room_answer x ne)));
        })

  none_answer :
      (item : A)
      → s.queue.tail ≡ s.queue.head
      → Fifo.pop (contents s.queue) item ≡ (false, item, contents s.queue)
  unfolding Fifo.pop
  none_answer item e = rw ((empty_iff h.valid).0 e)

  -- An item that stands at `tail` is the oldest.
  some_answer :
      (item out : A)
      → s.queue.tail ≢ s.queue.head
      → get_or s.queue.buffer s.queue.tail item ≡ out
      → Fifo.pop (contents s.queue) item ≡ (true, out, contents (tail_stored s.queue))
  unfolding Fifo.pop
  some_answer item out ne e = rw (contents-popped h.valid item ne, e)

  test_head-Holds : (item : A) (tail : ℕ) → tail ≡ s.queue.tail → Holds cap (test_head s item tail)
  unfolding test_head
  test_head-Holds item tail e = elim (ℕ_discrete s.queue.tail s.queue.head) [
    | yes none_left ↦
        rw (e, ==-yes none_left)
          (record {
            valid = h.valid;
            capacity_lem = h.capacity_lem;
            producing = h.producing;
            consuming = tt;
            explained = rw (ap (λ r. r.2) (none_answer item none_left)) at (
                Explains-pop cap s.log [] (contents s.queue) item item false h.explained
                  (ap (λ r. r.0) (none_answer item none_left))
                  (ap (λ r. r.1) (none_answer item none_left)));
          })
    | no ne ↦
        rw (e, ==-no ne)
          (record {
            valid = h.valid;
            capacity_lem = h.capacity_lem;
            producing = h.producing;
            consuming = (refl, ne);
            explained = h.explained;
          })
  ]

  read_item-Holds :
      (item : A) (tail : ℕ)
      → (tail ≡ s.queue.tail) × (s.queue.tail ≢ s.queue.head)
      → Holds cap (read_item s item tail)
  unfolding read_item
  read_item-Holds item tail (e, ne) = rw e (record {
    valid = h.valid;
    capacity_lem = h.capacity_lem;
    producing = h.producing;
    consuming = (refl, ne, at-get_or s.queue.buffer s.queue.tail item (omega (arith, h.valid)));
    explained = h.explained;
  })

  store_tail-Holds :
      (item out : A) (tail : ℕ)
      → (tail ≡ s.queue.tail)
        × (s.queue.tail ≢ s.queue.head)
        × (at s.queue.buffer s.queue.tail ≡ out ∷ [])
      → Holds cap (store_tail s item out tail)
  unfolding store_tail capacity
  store_tail-Holds item out tail (e, ne, stands) =
      let found : get_or s.queue.buffer s.queue.tail item ≡ out =
        cc (sym (at-get_or s.queue.buffer s.queue.tail item (omega (arith, h.valid))) ∙ stands) in
      let answer = some_answer item out ne found in
      rw (e, (indices h.valid).next_tail)
        (record {
          valid = tail_stored-IsValid h.valid;
          capacity_lem = h.capacity_lem;
          producing = tail_stored-ProducerHolds h.valid s.producer ne h.producing;
          consuming = tt;
          explained = rw (← ap (λ r. r.2) answer) (
              Explains-pop cap s.log [] (contents s.queue) item out true h.explained
                (ap (λ r. r.0) answer) (ap (λ r. r.1) answer));
        })

-- Every step of either thread keeps it.
pub Step-Holds : {A : Type 0} {cap : ℕ} {s t : Threads A} → Step s t → Holds cap s → Holds cap t
Step-Holds {s} (begin_push x e) h = record {
  valid = h.valid;
  capacity_lem = h.capacity_lem;
  producing = refl;
  consuming = h.consuming;
  explained = h.explained;
}
Step-Holds {s} (tests_tail x head e) h = test_tail-Holds h x head (rw e at h.producing)
Step-Holds {s} (writes_item x head e) h = write_item-Holds h x head (rw e at h.producing)
Step-Holds {s} (stores_head x head e) h = store_head-Holds h x head (rw e at h.producing)
Step-Holds {s} (begin_pop item e) h = record {
  valid = h.valid;
  capacity_lem = h.capacity_lem;
  producing = h.producing;
  consuming = refl;
  explained = h.explained;
}
Step-Holds {s} (tests_head item tail e) h = test_head-Holds h item tail (rw e at h.consuming)
Step-Holds {s} (reads_item item tail e) h = read_item-Holds h item tail (rw e at h.consuming)
Step-Holds {s} (stores_tail item out tail e) h =
    store_tail-Holds h item out tail (rw e at h.consuming)
