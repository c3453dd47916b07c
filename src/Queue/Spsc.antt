-- ===== src/Queue/Spsc.antt =====
-- `SPSCQueue` of core/distribution/lockfree_queue.hpp, called by one thread at a time: each method
-- is a function from the queue to its result and the new queue.
-- The template parameter `Size` is the field `size`. A `push` copies or moves its item in, which is
-- one write here, so that the two overloads are one function; `pop` writes through its argument,
-- which is passed in and returned.
pub mod Ring
pub mod Window
pub mod Refine
pub mod Client
pub mod Threads
use winter_square.Common.{
  ℕ, ◌+◌, ◌-◌, Bool, true, false, List, bit_and, ◌==◌, if◌then◌else◌, set, get_or, replicate,
}
use winter_square.Common.Word.{add_u64, sub_u64}

pub record SpscQueue {ℓ} (A : Type ℓ) : Type ℓ where
  pub size : ℕ
  pub head : ℕ
  pub tail : ℕ
  pub buffer : List A

-- `Size - 1`
abbrev pub mask : ℕ → ℕ
mask size = sub_u64 size 1

-- `(i + 1) & (Size - 1)`
unfoldable pub next_index : ℕ → ℕ → ℕ
next_index size i = bit_and (add_u64 i 1) (mask size)

module _ {ℓ} {A : Type ℓ} where
  -- `make_unique<T[]>(Size)` fills the buffer with default values.
  unfoldable pub init : ℕ → A → SpscQueue A
  init size default = record { size = size; head = 0; tail = 0; buffer = replicate size default }

  -- The buffer is written at `head`; a write out of range would change nothing, and
  -- the invariant `Ring.IsValid` rules it out.
  unfoldable pub push : SpscQueue A → A → Bool × SpscQueue A
  push q item =
      let next_head = next_index q.size q.head in
      if next_head == q.tail
      then (false, q)
      else (true, record q { buffer = set q.buffer q.head item; head = next_head })

  unfoldable pub pop : SpscQueue A → A → Bool × A × SpscQueue A
  pop q item =
      if q.tail == q.head
      then (false, item, q)
      else (true, get_or q.buffer q.tail item, record q { tail = next_index q.size q.tail })

  unfoldable pub empty : SpscQueue A → Bool
  empty q = q.tail == q.head

  unfoldable pub full : SpscQueue A → Bool
  full q = next_index q.size q.head == q.tail

  unfoldable pub count : SpscQueue A → ℕ
  count q = bit_and (sub_u64 q.head q.tail) (mask q.size)

  unfoldable pub capacity : SpscQueue A → ℕ
  capacity q = mask q.size
