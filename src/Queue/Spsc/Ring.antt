-- ===== src/Queue/Spsc/Ring.antt =====
-- Indices of `SPSCQueue`: the mask is a wrap at `size`, and every access is in range.
use winter_square.Common.{
  ℕ, zero, suc, ◌+◌, ◌-◌, ◌*◌, ◌%◌, ◌^◌, ◌≤◌, ◌<◌, ◌≡◌, sym, ap, ◌∙◌, bit_and, arith, leb, ◌==◌,
  if◌then◌else◌, length, length-set, length-replicate, ==-yes, ==-no, dec_lt, ℕ_discrete,
}
use winter_square.Common.Bits.{bit_and_ones, power_of_two, pow_pos}
use winter_square.Common.Word.{sub_u64, sub_u64_of_le}
use winter_square.Queue.Spsc.{SpscQueue, mask, next_index, init, push, pop, count, capacity}
use native.Mathlib.Nat.{
  pow-le-pow_right, mod-eq_of_lt, add-mul-mod_self_right, pow-suc, zero-add, suc-mul, mod_self,
}

-- What `static_assert` lets through, but for `Size == 0`.
pub record IsSize (size : ℕ) : Type 0 where
  pub log : ℕ
  pub small : log < 64
  pub is_power : size ≡ 2 ^ log

-- The `static_assert` of the class, for a nonzero `size_t`, leaves the powers of two.
pub static_assert-IsSize :
    (size : ℕ) → 0 < size → size < 2 ^ 64 → bit_and size (mask size) ≡ 0 → IsSize size
static_assert-IsSize size pos lt h =
    let (k, e) = power_of_two size pos (ap (bit_and size) exact ∙ h) in
    record {
      log = k;
      small = elim (dec_lt k 64) [
        | yes small ↦ small
        | no big ↦
            absurd
              (omega (arith, pow-le-pow_right {n = 2} (omega arith) {i = 64} {j = k} (omega arith)))
      ];
      is_power = e;
    }
  where
    exact : size - 1 ≡ mask size
    exact = omega arith

pow_split : (k d : ℕ) → 2 ^ k * 2 ^ d ≡ 2 ^ (d + k)
pow_split k zero = rw zero-add (omega arith)
pow_split k (suc d) = omega (
  arith,
  pow_split k d,
  pow-suc 2 d,
  ap (λ (t : ℕ). 2 ^ k * t) (pow-suc 2 d),
  pow-suc 2 (d + k),
  ap (λ (t : ℕ). 2 ^ t) same,
)
  where
    same : suc d + k ≡ suc (d + k)
    same = omega arith

-- One step round the ring.
abbrev pub step : ℕ → ℕ → ℕ
step size i = if i + 1 == size then 0 else i + 1

module _ {size : ℕ} (s : IsSize size) where
  pub IsSize-le : (0 < size) × (size ≤ 2 ^ 63)
  IsSize-le = omega (
    arith,
    pow_pos s.log,
    pow-le-pow_right {n = 2} (omega arith) {i = s.log} {j = 63} (omega (arith, s.small)),
    s.is_power,
  )

  -- `x & (Size - 1)` is `x % Size`.
  pub and_mask : (x : ℕ) → bit_and x (mask size) ≡ x % size
  and_mask x = ap (bit_and x) exact ∙ bit_and_ones s.log x ∙ ap (λ (t : ℕ). x % t) (sym s.is_power)
    where
      exact : mask size ≡ 2 ^ s.log - 1
      exact = omega (arith, IsSize-le, s.is_power)

  pub next_index-step : (i : ℕ) → i < size → next_index size i ≡ step size i
  unfolding next_index
  next_index-step i lt = rw and_mask (rw exact wrapped)
    where
      exact : (i + 1) % 2 ^ 64 ≡ i + 1
      exact = omega (arith, IsSize-le)

      wrapped : (i + 1) % size ≡ step size i
      wrapped = elim (ℕ_discrete (i + 1) size) [
        | yes e ↦ ground (arith, ap (λ (t : ℕ). t % size) e, mod_self size)
        | no ne ↦ ground (arith, mod-eq_of_lt {n = i + 1} {m = size} (omega arith))
      ]

  wrap_divides : 2 ^ (64 - s.log) * size ≡ 2 ^ 64
  wrap_divides =
      ap (λ (t : ℕ). 2 ^ (64 - s.log) * t) s.is_power
      ∙ pow_split (64 - s.log) s.log
      ∙ ap (λ (t : ℕ). 2 ^ t) sixty_four
    where
      sixty_four : s.log + (64 - s.log) ≡ 64
      sixty_four = omega (arith, s.small)

  -- `(head - tail) & (Size - 1)`, where the difference may wrap at 2 ^ 64.
  pub difference :
      (head tail : ℕ)
      → head < size
      → tail < size
      → bit_and (sub_u64 head tail) (mask size)
        ≡ (if leb tail head then head - tail else head + size - tail)
  difference head tail h t = and_mask (sub_u64 head tail) ∙ elim (dec_lt head tail) [
    | yes below ↦ ground (arith, below_case below)
    | no above ↦ ground (
      arith,
      IsSize-le,
      sub_u64_of_le head tail,
      mod-eq_of_lt {n = head - tail} {m = size} (omega arith),
    )
  ]
    where
      below_case : head < tail → sub_u64 head tail % size ≡ head + size - tail
      below_case below =
          ap (λ (x : ℕ). x % size) (split below)
          ∙ add-mul-mod_self_right (head + size - tail) (2 ^ (64 - s.log) - 1) size
          ∙ mod-eq_of_lt (omega arith)
        where
          blocks : (m : ℕ) → 0 < m → m * size ≡ 2 ^ 64 → size + (m - 1) * size ≡ 2 ^ 64
          blocks zero pos e = elim pos [ ]
          blocks (suc m) pos e =
              let less : suc m - 1 ≡ m = omega arith in rw less (omega (arith, suc-mul m size))

          split :
              head < tail → sub_u64 head tail ≡ head + size - tail + (2 ^ (64 - s.log) - 1) * size
          split b = omega (arith, blocks _ (pow_pos (64 - s.log)) wrap_divides, IsSize-le)

-- The representation invariant: `Size` is a power of two, and the indices and the buffer fit it.
pub record IsValid {ℓ} {A : Type ℓ} (q : SpscQueue A) : Type 0 where
  pub is_size : IsSize q.size
  pub head_in : q.head < q.size
  pub tail_in : q.tail < q.size
  pub room : length q.buffer ≡ q.size

-- How many items lie between `tail` and `head`, going round.
unfoldable pub distance {ℓ} : {A : Type ℓ} → SpscQueue A → ℕ
distance q = if leb q.tail q.head then q.head - q.tail else q.head + q.size - q.tail

module _ {ℓ} {A : Type ℓ} where
  pub init-IsValid : {size : ℕ} (d : A) → IsSize size → IsValid (init size d)
  unfolding init
  init-IsValid {size} d s = record {
    is_size = s;
    head_in = (IsSize-le s).0;
    tail_in = (IsSize-le s).0;
    room = length-replicate size d;
  }

  -- What the methods read of an index, in plain arithmetic.
  pub record Indices (q : SpscQueue A) : Type 0 where
    pub next_head : next_index q.size q.head ≡ step q.size q.head
    pub next_tail : next_index q.size q.tail ≡ step q.size q.tail
    pub counted : count q ≡ distance q
    pub capacity_lem : capacity q + 1 ≡ q.size
    pub positive : 0 < q.size

  pub indices : {q : SpscQueue A} → IsValid q → Indices q
  unfolding count capacity distance
  indices {q} v = record {
    next_head = next_index-step v.is_size q.head v.head_in;
    next_tail = next_index-step v.is_size q.tail v.tail_in;
    counted = difference v.is_size q.head q.tail v.head_in v.tail_in;
    capacity_lem = omega (arith, IsSize-le v.is_size);
    positive = (IsSize-le v.is_size).0;
  }

  -- `push` keeps the invariant.
  pub push-IsValid : {q : SpscQueue A} (x : A) → IsValid q → IsValid (push q x).1
  unfolding push
  push-IsValid {q} x v = elim (ℕ_discrete (next_index q.size q.head) q.tail) [
    | yes e ↦ rw (==-yes e) v
    | no ne ↦ rw (==-no ne) (record {
      is_size = v.is_size;
      head_in = ground (arith, indices v);
      tail_in = v.tail_in;
      room = length-set q.buffer q.head x ∙ v.room;
    })
  ]

  -- `pop` keeps the invariant.
  pub pop-IsValid : {q : SpscQueue A} (item : A) → IsValid q → IsValid (pop q item).2
  unfolding pop
  pop-IsValid {q} item v = elim (ℕ_discrete q.tail q.head) [
    | yes e ↦ rw (==-yes e) v
    | no ne ↦ rw (==-no ne) (record {
      is_size = v.is_size;
      head_in = v.head_in;
      tail_in = ground (arith, indices v);
      room = v.room;
    })
  ]
