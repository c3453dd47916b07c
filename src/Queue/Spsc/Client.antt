-- ===== src/Queue/Spsc/Client.antt =====
-- A client of one queue: sequences of calls, answered by the ring and by the FIFO.
use winter_square.Common.{
  ℕ, ◌≡◌, refl, sym, ap, ap₂, ◌∙◌, Bool, true, false, List, [], ◌∷◌, length, ◌==◌, ==-yes, ==-no,
  length_zero, Bool-cases, inl, inr,
}
use winter_square.Queue.Fifo
use winter_square.Queue.Spsc.{SpscQueue, next_index, push, pop, count, capacity, empty, full}
use winter_square.Queue.Spsc.Ring.{IsValid, indices, push-IsValid, pop-IsValid}
use winter_square.Queue.Spsc.Refine.{
  contents, length-contents, push_refines, pop_refines, observers,
}

-- A client's calls, and what it sees of each.
pub data Op {ℓ} (A : Type ℓ) : Type ℓ where
  put : A → Op A
  get : A → Op A
  ask_size ask_empty ask_full ask_capacity : Op A

pub data Reply {ℓ} (A : Type ℓ) : Type ℓ where
  pushed_reply : Bool → Reply A
  popped_reply : Bool → A → Reply A
  size_reply : ℕ → Reply A
  flag_reply : Bool → Reply A

not_both : {b : Bool} → b ≡ false → b ≡ true → ⊥
not_both e f = cc

module _ {ℓ} {A : Type ℓ} where
  unfoldable pub run : SpscQueue A → List (Op A) → List (Reply A)
  run q [] = []
  run q (put x ∷ ops) = let (b, q') = push q x in pushed_reply b ∷ run q' ops
  run q (get item ∷ ops) = let (b, out, q') = pop q item in popped_reply b out ∷ run q' ops
  run q (ask_size ∷ ops) = size_reply (count q) ∷ run q ops
  run q (ask_empty ∷ ops) = flag_reply (empty q) ∷ run q ops
  run q (ask_full ∷ ops) = flag_reply (full q) ∷ run q ops
  run q (ask_capacity ∷ ops) = size_reply (capacity q) ∷ run q ops

  unfoldable pub run_fifo : ℕ → List A → List (Op A) → List (Reply A)
  run_fifo cap xs [] = []
  run_fifo cap xs (put x ∷ ops) =
      let (b, xs') = Fifo.push cap xs x in pushed_reply b ∷ run_fifo cap xs' ops
  run_fifo cap xs (get item ∷ ops) =
      let (b, out, xs') = Fifo.pop xs item in popped_reply b out ∷ run_fifo cap xs' ops
  run_fifo cap xs (ask_size ∷ ops) = size_reply (length xs) ∷ run_fifo cap xs ops
  run_fifo cap xs (ask_empty ∷ ops) = flag_reply (length xs == 0) ∷ run_fifo cap xs ops
  run_fifo cap xs (ask_full ∷ ops) = flag_reply (length xs == cap) ∷ run_fifo cap xs ops
  run_fifo cap xs (ask_capacity ∷ ops) = size_reply cap ∷ run_fifo cap xs ops

  pub capacity-push : (q : SpscQueue A) (x : A) → capacity (push q x).1 ≡ capacity q
  unfolding push capacity
  capacity-push q x = elim (Bool-cases (next_index q.size q.head == q.tail)) [
    | inl e ↦ rw e
    | inr e ↦ rw e
  ]

  pub capacity-pop : (q : SpscQueue A) (item : A) → capacity (pop q item).2 ≡ capacity q
  unfolding pop capacity
  capacity-pop q item = elim (Bool-cases (q.tail == q.head)) [ inl e ↦ rw e | inr e ↦ rw e ]

  module _ {q : SpscQueue A} (v : IsValid q) where
    empty-contents : empty q ≡ (length (contents q) == 0)
    empty-contents = elim (Bool-cases (empty q)) [
      | inl e ↦ e ∙ sym (==-yes (ap length ((observers v).0.0 e)))
      | inr e ↦ e ∙ sym (==-no (λ z. not_both e ((observers v).0.1 (length_zero (contents q) z))))
    ]

    full-contents : full q ≡ (length (contents q) == capacity q)
    full-contents = elim (Bool-cases (full q)) [
      | inl e ↦ e ∙ sym (==-yes ((observers v).1.0 e))
      | inr e ↦ e ∙ sym (==-no (λ z. not_both e ((observers v).1.1 z)))
    ]

  -- No sequence of calls of `push`, `pop`, `size`, `empty`, `full` and `capacity` tells a valid ring from the FIFO of at most `capacity` items.
  pub run_refines :
      (ops : List (Op A)) {q : SpscQueue A}
      → IsValid q
      → run q ops ≡ run_fifo (capacity q) (contents q) ops
  unfolding run run_fifo
  run_refines [] v = refl
  run_refines (put x ∷ ops) {q} v =
      rw (run_refines ops (push-IsValid x v), ← push_refines v x, capacity-push)
  run_refines (get item ∷ ops) {q} v =
      rw (run_refines ops (pop-IsValid item v), ← pop_refines v item, capacity-pop)
  run_refines (ask_size ∷ ops) {q} v =
      ap₂ ◌∷◌ (ap size_reply ((indices v).counted ∙ sym (length-contents v))) (run_refines ops v)
  run_refines (ask_empty ∷ ops) v = ap₂ ◌∷◌ (ap flag_reply (empty-contents v)) (run_refines ops v)
  run_refines (ask_full ∷ ops) v = ap₂ ◌∷◌ (ap flag_reply (full-contents v)) (run_refines ops v)
  run_refines (ask_capacity ∷ ops) {q} v = ap (λ r. size_reply (capacity q) ∷ r) (run_refines ops v)
