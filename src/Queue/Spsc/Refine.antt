-- ===== src/Queue/Spsc/Refine.antt =====
-- A valid ring behaves as the bounded FIFO of the items between `tail` and `head`.
use winter_square.Common.{
  suc, ◌+◌, ◌<◌, ◌≤◌, ◌≡◌, sym, ap, ◌∙◌, ◌≢◌, ◌↔◌, true, false, List, [], ◌∷◌, ◌++◌, arith, length,
  get_or, set, ltb, ==-yes, ==-no, ℕ_discrete, length_zero,
}
use winter_square.Queue.Fifo
use winter_square.Queue.Spsc.{SpscQueue, push, pop, count, capacity, empty, full}
use winter_square.Queue.Spsc.Ring.{step, IsValid, distance, indices}
use winter_square.Queue.Spsc.Window.{at-get_or, ahead, window, length-window, window-push}

-- What the queue holds, oldest first.
abbrev pub contents {ℓ} : {A : Type ℓ} → SpscQueue A → List A
contents q = window q.size q.buffer q.tail (distance q)

module _ {ℓ} {A : Type ℓ} {q : SpscQueue A} (v : IsValid q) where
  open v use {head_in, tail_in, room}

  pub length-contents : length (contents q) ≡ distance q
  length-contents = length-window q.size q.buffer q.tail (distance q) room tail_in

  -- Full and empty are told apart by the distance from `tail` to `head`.
  full_iff : (step q.size q.head ≡ q.tail) ↔ (distance q + 1 ≡ q.size)
  unfolding distance
  full_iff = (λ e. ground arith, λ e. ground arith)

  pub empty_iff : (q.tail ≡ q.head) ↔ (distance q ≡ 0)
  unfolding distance
  empty_iff = (λ e. ground arith, λ e. ground arith)

  pub distance-lt : distance q < q.size
  unfolding distance
  distance-lt = ground arith

  pub head-ahead : q.head ≡ ahead q.size q.tail (distance q)
  unfolding distance
  head-ahead = ground arith

  abbrev pub pushed : A → SpscQueue A
  pushed x = record q { buffer = set q.buffer q.head x; head = step q.size q.head }

  abbrev pub popped : SpscQueue A
  popped = record q { tail = step q.size q.tail }

  distance-pushed : (x : A) → step q.size q.head ≢ q.tail → distance (pushed x) ≡ suc (distance q)
  unfolding distance
  distance-pushed x ne = ground arith

  distance-popped : q.tail ≢ q.head → distance q ≡ suc (distance popped)
  unfolding distance
  distance-popped ne = ground arith

  push_full : (x : A) → step q.size q.head ≡ q.tail → push q x ≡ (false, q)
  unfolding push
  push_full x e = rw ((indices v).next_head, ==-yes e)

  push_room : (x : A) → step q.size q.head ≢ q.tail → push q x ≡ (true, pushed x)
  unfolding push
  push_room x ne = rw ((indices v).next_head, ==-no ne)

  pop_empty : (item : A) → q.tail ≡ q.head → pop q item ≡ (false, item, q)
  unfolding pop
  pop_empty item e = rw (==-yes e)

  pop_item : (item : A) → q.tail ≢ q.head → pop q item ≡ (true, get_or q.buffer q.tail item, popped)
  unfolding pop
  pop_item item ne = rw ((indices v).next_tail, ==-no ne)

  pub contents-pushed :
      (x : A) → step q.size q.head ≢ q.tail → contents (pushed x) ≡ contents q ++ x ∷ []
  contents-pushed x ne =
      rw (distance-pushed x ne) (
        window-push q.size q.buffer x q.tail (distance q) q.head room tail_in distance-lt
          head-ahead)

  pub contents-popped :
      (item : A) → q.tail ≢ q.head → contents q ≡ get_or q.buffer q.tail item ∷ contents popped
  contents-popped item ne =
      rw (distance-popped ne)
        (ap (λ xs. xs ++ contents popped) (at-get_or q.buffer q.tail item (omega arith)))

  pub no_room : step q.size q.head ≡ q.tail → ltb (length (contents q)) (capacity q) ≡ false
  no_room e = ground (arith, length-contents, indices v, full_iff)

  pub has_room : step q.size q.head ≢ q.tail → ltb (length (contents q)) (capacity q) ≡ true
  has_room ne = ground (arith, length-contents, indices v, full_iff, distance-lt)

  -- `push` returns the answer of the bounded FIFO of `capacity`, and leaves its contents.
  pub push_refines :
      (x : A) → let (b, q') = push q x in (b, contents q') ≡ Fifo.push (capacity q) (contents q) x
  unfolding Fifo.push
  push_refines x = elim (ℕ_discrete (step q.size q.head) q.tail) [
    | yes e ↦ rw (push_full x e, no_room e)
    | no ne ↦ rw (push_room x ne, contents-pushed x ne, has_room ne)
  ]

  -- `pop` returns what the FIFO returns, and leaves the rest of its contents.
  pub pop_refines :
      (item : A)
      → let (b, out, q') = pop q item in (b, out, contents q') ≡ Fifo.pop (contents q) item
  unfolding Fifo.pop
  pop_refines item = elim (ℕ_discrete q.tail q.head) [
    | yes e ↦ rw (pop_empty item e) (rw (empty_iff.0 e))
    | no ne ↦ rw (pop_item item ne, contents-popped item ne)
  ]

  empty_lem : (empty q ≡ true) ↔ (contents q ≡ [])
  unfolding empty
  empty_lem = (
    λ e. length_zero (contents q) (omega (arith, length-contents, empty_iff.0 (ground arith))),
    λ e. ==-yes (empty_iff.1 (omega (arith, length-contents, ap length e))),
  )

  full_lem : (full q ≡ true) ↔ (length (contents q) ≡ capacity q)
  unfolding full
  full_lem = (
    λ e. ground (arith, length-contents, indices v, full_iff),
    λ e. ground (arith, length-contents, indices v, full_iff),
  )

  -- In a valid ring `empty`, `full` and `size` are those of the contents, of which there are at most `capacity`.
  pub observers :
      ((empty q ≡ true) ↔ (contents q ≡ []))
      × ((full q ≡ true) ↔ (length (contents q) ≡ capacity q))
      × (count q ≡ length (contents q))
      × (length (contents q) ≤ capacity q)
  observers = (
    empty_lem,
    full_lem,
    (indices v).counted ∙ sym length-contents,
    omega (arith, length-contents, indices v, distance-lt),
  )
