-- ===== src/Queue/Spsc/Threads/Linear.antt =====
-- What any interleaving of a producer and a consumer of one ring shows.
use winter_square.Common.{
  ℕ, ◌<◌, ◌≡◌, ◌≢◌, refl, sym, ap, ◌∙◌, true, false, List, [], ◌∷◌, ◌++◌, arith, ltb, length,
  Bool-cases, inl, inr,
}
use winter_square.Queue.Fifo
use winter_square.Queue.Spsc.{init, capacity}
use winter_square.Queue.Spsc.Ring.{IsSize, IsValid, init-IsValid, distance}
use winter_square.Queue.Spsc.Refine.{contents}
use winter_square.Queue.Spsc.Threads.{
  Producer, Consumer, Call, pushed, popped, Threads, initial, Reach, here, next,
}
use winter_square.Queue.Spsc.Threads.Holds.{Explains, Holds}
use winter_square.Queue.Spsc.Threads.Keep.{Step-Holds}
use mathlib.Core.List.{append_assoc, append-nil}

module _ {A : Type 0} where
  initial-Holds :
      {size : ℕ} (default : A)
      → IsSize size
      → Holds (capacity (init size default)) (initial (init size default))
  unfolding init distance
  initial-Holds default is_size = record {
    valid = unfold init in init-IsValid default is_size;
    capacity_lem = refl;
    producing = tt;
    consuming = tt;
    explained = refl;
  }

  pub Reach-Holds : {cap : ℕ} {s t : Threads A} → Reach s t → Holds cap s → Holds cap t
  Reach-Holds here h = h
  Reach-Holds (next r st) h = Step-Holds st (Reach-Holds r h)

  -- The items of the calls that succeeded, in the order in which these took effect.
  unfoldable pub inserted : List (Call A) → List A
  inserted [] = []
  inserted (pushed x true ∷ log) = x ∷ inserted log
  inserted (pushed x false ∷ log) = inserted log
  inserted (popped item b out ∷ log) = inserted log

  unfoldable pub removed : List (Call A) → List A
  removed [] = []
  removed (pushed x b ∷ log) = removed log
  removed (popped item true out ∷ log) = out ∷ removed log
  removed (popped item false out ∷ log) = removed log

  push_accepts :
      (cap : ℕ) (xs : List A) (x : A)
      → (Fifo.push cap xs x).0 ≡ true
      → (Fifo.push cap xs x).1 ≡ xs ++ x ∷ []
  unfolding Fifo.push
  push_accepts cap xs x h = elim (Bool-cases (ltb (length xs) cap)) [
    | inl room ↦ rw room
    | inr full ↦ cc (rw full at h)
  ]

  push_refuses :
      (cap : ℕ) (xs : List A) (x : A) → (Fifo.push cap xs x).0 ≡ false → (Fifo.push cap xs x).1 ≡ xs
  unfolding Fifo.push
  push_refuses cap xs x h = elim (Bool-cases (ltb (length xs) cap)) [
    | inl room ↦ cc (rw room at h)
    | inr full ↦ rw full
  ]

  -- What the FIFO was given is what it gave back and what it holds.
  Explains-order :
      (cap : ℕ) (log : List (Call A)) (xs ys : List A)
      → Explains cap xs log ys
      → xs ++ inserted log ≡ removed log ++ ys
  unfolding inserted removed Fifo.pop
  Explains-order cap [] xs ys h = append-nil xs ∙ h
  Explains-order cap (pushed x true ∷ log) xs ys (e, h) =
      sym (append_assoc xs (x ∷ []) (inserted log))
      ∙ Explains-order cap log (xs ++ x ∷ []) ys (rw (push_accepts cap xs x e) at h)
  Explains-order cap (pushed x false ∷ log) xs ys (e, h) =
      Explains-order cap log xs ys (rw (push_refuses cap xs x e) at h)
  Explains-order cap (popped item true out ∷ log) [] ys (e, f, h) = cc
  Explains-order cap (popped item false out ∷ log) [] ys (e, f, h) = Explains-order cap log [] ys h
  Explains-order cap (popped item true out ∷ log) (x ∷ xs) ys (e, f, h) =
      ap (λ r. x ∷ r) (Explains-order cap log xs ys h) ∙ ap (λ o. o ∷ (removed log ++ ys)) f
  Explains-order cap (popped item false out ∷ log) (x ∷ xs) ys (e, f, h) = cc

module _ {A : Type 0} {size : ℕ} (default : A) (is_size : IsSize size) {s : Threads A}
    (r : Reach (initial (init size default)) s) where
  held : Holds (capacity (init size default)) s
  held = Reach-Holds r (initial-Holds default is_size)

  -- In every state that a producer and a consumer reach from an empty queue of a size that the
  -- class admits: the calls that have returned, in the order in which they took effect, got the
  -- answers of the FIFO of `capacity` items, the ring holds what the FIFO then holds, and it is
  -- well formed.
  pub linearizable :
      Explains (capacity (init size default)) [] s.log (contents s.queue) × IsValid s.queue
  linearizable = (held.explained, held.valid)

  -- In every state that a producer and a consumer reach from an empty queue of a size that the
  -- class admits: the items of the successful pushes, in order, are those of the successful pops,
  -- in order, and then what the ring holds. No item is lost, duplicated, invented or overtaken.
  pub first_in_first_out : inserted s.log ≡ removed s.log ++ contents s.queue
  first_in_first_out =
      Explains-order (capacity (init size default)) s.log [] (contents s.queue) held.explained

  -- In every state that a producer and a consumer reach from an empty queue of a size that the
  -- class admits: when the producer is about to write a slot of the buffer and the consumer is
  -- about to read one, both slots exist and are not the same.
  pub no_race :
      (x item : A) (head tail : ℕ)
      → s.producer ≡ Producer.found_room x head
      → s.consumer ≡ Consumer.found_item item tail
      → (head < length s.queue.buffer) × (tail < length s.queue.buffer) × (head ≢ tail)
  no_race x item head tail p c =
      let (e, _) = rw p at held.producing in
      let (f, ne) = rw c at held.consuming in
      let v = held.valid in (omega arith, omega arith, λ same. ne (omega arith))
