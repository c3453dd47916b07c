-- ===== src/Queue/Spsc/Window.antt =====
-- The items from one index of a ring on, as a list.
use winter_square.Common.{
  ℕ, zero, suc, ◌+◌, ◌-◌, ◌<◌, ◌≤◌, ◌≡◌, refl, sym, ap, ap₂, ◌∙◌, ◌≢◌, List, [], ◌∷◌, ◌++◌, none,
  some, arith, length, length-append, get_elem?, get_or, set, ltb, if◌then◌else◌,
  get_elem?-set_self, get_elem?-set_ne,
}
use winter_square.Queue.Spsc.Ring.{step}
use mathlib.Core.List.{append_assoc, append-nil}

module _ {ℓ} {A : Type ℓ} where
  -- The item at an index, as a list of one or none.
  abbrev pub at : List A → ℕ → List A
  at xs i = elim (get_elem? xs i) [ none ↦ [] | some x ↦ x ∷ [] ]

  pub at-get_or : (xs : List A) (i : ℕ) (d : A) → i < length xs → at xs i ≡ get_or xs i d ∷ []
  at-get_or [] i d h = elim h [ ]
  at-get_or (x ∷ xs) zero d h = refl
  at-get_or (x ∷ xs) (suc i) d h = at-get_or xs i d (omega arith)

  length-at : (xs : List A) (i : ℕ) → i < length xs → length (at xs i) ≡ 1
  length-at [] i h = elim h [ ]
  length-at (x ∷ xs) zero h = refl
  length-at (x ∷ xs) (suc i) h = length-at xs i (omega arith)

-- The index `n` steps after `t`, for `n` below `size`.
abbrev pub ahead : ℕ → ℕ → ℕ → ℕ
ahead size t n = if ltb (t + n) size then t + n else t + n - size

pub step-lt : (size t : ℕ) → t < size → step size t < size
step-lt size t h = ground arith

ahead-suc :
    (size t n : ℕ) → t < size → suc n < size → ahead size t (suc n) ≡ ahead size (step size t) n
ahead-suc size t n h lt = ground arith

ahead-ne : (size t n : ℕ) → t < size → suc n < size → ahead size t (suc n) ≢ t
ahead-ne size t n h lt = ground arith

module _ {ℓ} {A : Type ℓ} (size : ℕ) where
  -- The `n` items from index `t` on, going round at `size`.
  abbrev pub window : List A → ℕ → ℕ → List A
  window xs t zero = []
  window xs t (suc n) = at xs t ++ window xs (step size t) n

  pub length-window :
      (xs : List A) (t n : ℕ) → length xs ≡ size → t < size → length (window xs t n) ≡ n
  length-window xs t zero e h = refl
  length-window xs t (suc n) e h = omega (
    arith,
    length-append (at xs t) (window xs (step size t) n),
    length-at xs t (omega arith),
    length-window xs (step size t) n e (step-lt size t h),
  )

  -- A write at an index that the window does not reach is not seen.
  pub window-set :
      (xs : List A) (x : A) (t n m i : ℕ)
      → t < size
      → n ≤ m
      → m < size
      → i ≡ ahead size t m
      → window (set xs i x) t n ≡ window xs t n
  window-set xs x t zero m i h le lt e = refl
  window-set xs x t (suc n) zero i h le lt e = absurd (omega arith)
  window-set xs x t (suc n) (suc m) i h le lt e =
      ap₂ ◌++◌ (ap (λ o. elim o [ none ↦ [] | some y ↦ y ∷ [] ]) (get_elem?-set_ne xs x other)) (
        window-set xs x (step size t) n m i (step-lt size t h) (omega arith) (omega arith)
          (e ∙ ahead-suc size t m h lt))
    where
      other : i ≢ t
      other = rw e (ahead-ne size t m h lt)

  window_snoc :
      (xs : List A) (t n : ℕ)
      → t < size
      → n < size
      → window xs t (suc n) ≡ window xs t n ++ at xs (ahead size t n)
  window_snoc xs t zero h lt = append-nil (at xs t) ∙ ap (at xs) (ground arith)
  window_snoc xs t (suc n) h lt =
      ap (λ r. at xs t ++ r) (window_snoc xs (step size t) n (step-lt size t h) (omega arith))
      ∙ sym (append_assoc (at xs t) (window xs (step size t) n) _)
      ∙ ap (λ i. (at xs t ++ window xs (step size t) n) ++ at xs i) (sym (ahead-suc size t n h lt))

  -- Writing just past a window extends it by that item.
  pub window-push :
      (xs : List A) (x : A) (t n i : ℕ)
      → length xs ≡ size
      → t < size
      → n < size
      → i ≡ ahead size t n
      → window (set xs i x) t (suc n) ≡ window xs t n ++ x ∷ []
  window-push xs x t n i room h lt e =
      window_snoc (set xs i x) t n h lt
      ∙ ap₂ ◌++◌ (window-set xs x t n n i h (omega arith) lt e) (
          ap (at (set xs i x)) (sym e)
          ∙ ap (λ o. elim o [ none ↦ [] | some y ↦ y ∷ [] ])
              (get_elem?-set_self xs i x (ground arith)))
