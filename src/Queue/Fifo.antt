-- ===== src/Queue/Fifo.antt =====
-- What a queue promises: a FIFO of at most `cap` items, oldest first.
use winter_square.Common.{ℕ, Bool, true, false, List, [], ◌∷◌, ◌++◌, length, ltb, if◌then◌else◌}

module _ {ℓ} {A : Type ℓ} where
  -- A full queue refuses the item and stays as it is.
  unfoldable pub push : ℕ → List A → A → Bool × List A
  push cap xs x = if ltb (length xs) cap then (true, xs ++ x ∷ []) else (false, xs)

  -- An empty queue leaves the caller's item as it was.
  unfoldable pub pop : List A → A → Bool × A × List A
  pop [] item = (false, item, [])
  pop (x ∷ xs) item = (true, x, xs)
