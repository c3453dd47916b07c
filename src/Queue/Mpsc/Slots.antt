-- ===== src/Queue/Mpsc/Slots.antt =====
-- Places of `MPSCQueue`, which are taken round the nodes.
use winter_square.Common.{
  ℕ, zero, suc, ◌+◌, ◌-◌, ◌*◌, ◌/◌, ◌%◌, ◌^◌, ◌≤◌, ◌<◌, ◌≡◌, ◌≢◌, refl, sym, ap, ◌∙◌, List, [], ◌∷◌,
  some, arith, bit_and, get_elem?, dec_lt, length,
}
use winter_square.Queue.Spsc.{mask}
use winter_square.Queue.Spsc.Ring.{IsSize, IsSize-le, and_mask}
use winter_square.Queue.Mpsc.{Node, MpscQueue, Sign, difference, update, node_at, change_node}
use mathlib.Core.Option.{some-injective}
use native.Mathlib.Nat.{
  mod-eq_of_lt, add-mul-mod_self_right, div-add-mod', mod-lt, suc-mul, mul-le-mul_right,
}

-- Two numbers with one remainder are equal or `size` apart.
mod_apart : (size a b : ℕ) → 0 < size → a < b → a % size ≡ b % size → a + size ≤ b
mod_apart size a b pos lt e = elim (dec_lt (a / size) (b / size)) [
  | yes less ↦ omega (
    arith,
    div-add-mod' a size,
    div-add-mod' b size,
    suc-mul (a / size) size,
    mul-le-mul_right {m = suc (a / size)} {n = b / size} size less,
  )
  | no not_less ↦ absurd (
      omega (
        arith,
        div-add-mod' a size,
        div-add-mod' b size,
        mul-le-mul_right {m = b / size} {n = a / size} size (omega arith),
      ))
]

-- A window of `size` places has every remainder.
mod_in :
    (size low h : ℕ) → 0 < size → (t : ℕ) × (low ≤ t) × (t < low + size) × (t % size ≡ h % size)
mod_in size low h pos = elim (dec_lt (h % size) (low % size)) [
  | yes less ↦ (
    low + (h % size + size - low % size),
    omega arith,
    omega (arith, mod-lt low pos),
    ap (λ (t : ℕ). t % size) (round_up less)
        ∙ add-mul-mod_self_right (h % size) (suc (low / size)) size
        ∙ mod-eq_of_lt (mod-lt h pos),
  )
  | no not_less ↦ (
    low + (h % size - low % size),
    omega arith,
    omega (arith, mod-lt h pos),
    ap (λ (t : ℕ). t % size) (same_round not_less)
        ∙ add-mul-mod_self_right (h % size) (low / size) size
        ∙ mod-eq_of_lt (mod-lt h pos),
  )
]
  where
    round_up :
        h % size < low % size
        → low + (h % size + size - low % size) ≡ h % size + suc (low / size) * size
    round_up less = omega (arith, div-add-mod' low size, suc-mul (low / size) size)

    same_round :
        ¬ (h % size < low % size) → low + (h % size - low % size) ≡ h % size + low / size * size
    same_round not_less = omega (arith, div-add-mod' low size)

module _ {ℓ} {A : Type ℓ} where
  pub length-update : (xs : List A) (i : ℕ) (f : A → A) → length (update xs i f) ≡ length xs
  unfolding update
  length-update [] i f = refl
  length-update (x ∷ xs) zero f = refl
  length-update (x ∷ xs) (suc i) f = ap suc (length-update xs i f)

  get_elem?-update_self :
      (xs : List A) (i : ℕ) (f : A → A) {x : A}
      → get_elem? xs i ≡ some x
      → get_elem? (update xs i f) i ≡ some (f x)
  unfolding update
  get_elem?-update_self [] i f h = cc
  get_elem?-update_self (x ∷ xs) zero f h = ap (λ y. some (f y)) (some-injective _ _ h)
  get_elem?-update_self (x ∷ xs) (suc i) f h = get_elem?-update_self xs i f h

  get_elem?-update_ne :
      (xs : List A) {i j : ℕ} (f : A → A) → i ≢ j → get_elem? (update xs i f) j ≡ get_elem? xs j
  unfolding update
  get_elem?-update_ne [] f h = refl
  get_elem?-update_ne (x ∷ xs) {i = zero} {j = zero} f h = absurd (h refl)
  get_elem?-update_ne (x ∷ xs) {i = zero} {j = suc j} f h = refl
  get_elem?-update_ne (x ∷ xs) {i = suc i} {j = zero} f h = refl
  get_elem?-update_ne (x ∷ xs) {i = suc i} {j = suc j} f h =
      get_elem?-update_ne xs f (λ e. h (ap suc e))

-- What the places of a queue of `size` nodes, two at least, have in common.
module _ {A : Type 0} (q : MpscQueue A) (s : IsSize q.size) where
  and_mask-same : (a b : ℕ) → a % q.size ≡ b % q.size → node_at q a ≡ node_at q b
  unfolding node_at
  and_mask-same a b e = ap (get_elem? q.nodes) (and_mask s a ∙ e ∙ sym (and_mask s b))

  pub node_at-round : (a : ℕ) → node_at q (a + q.size) ≡ node_at q a
  node_at-round a =
      and_mask-same (a + q.size) a
        (ap (λ (t : ℕ). t % q.size) one ∙ add-mul-mod_self_right a 1 q.size)
    where
      one : a + q.size ≡ a + 1 * q.size
      one = omega arith

  pub node_at-window :
      (low h : ℕ)
      → (t : ℕ) × (low ≤ t)
        × (t < low + q.size)
        × (node_at q h ≡ node_at q t)
        × (t < h → t + q.size ≤ h)
  node_at-window low h =
      let pos = (IsSize-le s).0 in
      let (t, lo, hi, e) = mod_in q.size low h pos in
      (t, lo, hi, and_mask-same h t (sym e), (λ lt. mod_apart q.size t h pos lt e))

  pub node_at-change_node :
      (a : ℕ) (f : Node A → Node A) {node : Node A}
      → node_at q a ≡ some node
      → node_at (change_node q a f) a ≡ some (f node)
  unfolding node_at change_node
  node_at-change_node a f h = get_elem?-update_self q.nodes (bit_and a (mask q.size)) f h

  -- Two places of one window are two nodes.
  pub indices_apart :
      (low a b : ℕ)
      → low ≤ a
      → a < low + q.size
      → low ≤ b
      → b < low + q.size
      → a ≢ b
      → bit_and a (mask q.size) ≢ bit_and b (mask q.size)
  indices_apart low a b la ha lb hb ne e =
      let same : a % q.size ≡ b % q.size = sym (and_mask s a) ∙ e ∙ and_mask s b in
      elim (dec_lt a b) [
        | yes lt ↦ absurd (omega (arith, mod_apart q.size a b (IsSize-le s).0 lt same))
        | no ge ↦
            absurd (omega (arith, mod_apart q.size b a (IsSize-le s).0 (omega arith) (sym same)))
      ]

  pub node_at-change_other :
      (low a b : ℕ) (f : Node A → Node A)
      → low ≤ a
      → a < low + q.size
      → low ≤ b
      → b < low + q.size
      → a ≢ b
      → node_at (change_node q a f) b ≡ node_at q b
  unfolding node_at change_node
  node_at-change_other low a b f la ha lb hb ne =
      get_elem?-update_ne q.nodes f (indices_apart low a b la ha lb hb ne)

-- What the sign of a difference says, where it does not overflow.
module _ (a b : ℕ) (in_a : a < 2 ^ 63) (in_b : b < 2 ^ 63) where
  pub difference_zero : difference a b ≡ Sign.zero_sign → a ≡ b
  unfolding difference
  difference_zero e = ground arith

  pub difference_same : a ≡ b → difference a b ≡ Sign.zero_sign
  unfolding difference
  difference_same e = ground arith

  pub difference_negative : difference a b ≡ Sign.negative → a < b
  unfolding difference
  difference_negative e = ground arith

  pub difference_below : a < b → difference a b ≡ Sign.negative
  unfolding difference
  difference_below lt = ground arith
