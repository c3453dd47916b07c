-- ===== src/Common/Bits.antt =====
-- `&`, `|` and shifts at variables. A mask of ones is a remainder, and `|` of numbers that share
-- no bit is their sum.
use Prim.Native.Nat.{
  ℕ, zero, suc, ◌+◌, ◌-◌, ◌*◌, ◌/◌, ◌%◌, ◌^◌, ◌≤◌, ◌<◌, min, max, bit_and, bit_or, digits,
  bit_and-bitwise, bit_or-bitwise,
}
use mathlib.Core.Path.{◌≡◌, refl, sym, ap, ◌∙◌}
use native.Mathlib.Nat.{pow-suc, mod-lt, mod-eq_of_lt, add-mul-mod_self_right, div-add-mod'}
use native.Mathlib.Decide.{ℕ_discrete}
use mathlib.Core.Logic.{◌≢◌}
use native.Mathlib.Omega.{arith}

-- A claim about every number that follows from that about its half.
by_halving_fuel {ℓ} :
    (P : ℕ → Type ℓ) → P 0 → ((x : ℕ) → P (suc x / 2) → P (suc x)) → (fuel x : ℕ) → x < fuel → P x
by_halving_fuel P base step zero x lt = absurd (omega arith)
by_halving_fuel P base step (suc fuel) zero lt = base
by_halving_fuel P base step (suc fuel) (suc x) lt =
    step x (by_halving_fuel P base step fuel (suc x / 2) (omega arith))

by_halving {ℓ} : (P : ℕ → Type ℓ) → P 0 → ((x : ℕ) → P (suc x / 2) → P (suc x)) → (x : ℕ) → P x
by_halving P base step x = by_halving_fuel P base step (suc x) x (omega arith)

-- `k` more than `n`, one at a time.
raise : ℕ → ℕ → ℕ
raise zero n = n
raise (suc k) n = suc (raise k n)

raise_lem : (k n : ℕ) → raise k n ≡ k + n
unfolding raise
raise_lem zero n = omega arith
raise_lem (suc k) n = omega (arith, raise_lem k n)

-- The recursion on digits that the native operations stand for.
module _ (end : ℕ → ℕ) (op : ℕ → ℕ → ℕ) where
  -- Fuel beyond the number changes nothing.
  digits_settle : (n x y : ℕ) → x ≤ n → digits end op (suc n) x y ≡ digits end op n x y
  digits_settle zero zero y le = refl
  digits_settle zero (suc x) y le = absurd (omega arith)
  digits_settle (suc n) zero y le = refl
  digits_settle (suc n) (suc x) y le =
      ap (λ t. t * 2 + op (suc x % 2) (y % 2)) (digits_settle n (suc x / 2) (y / 2) (omega arith))

  digits-raise : (k n x y : ℕ) → x ≤ n → digits end op (raise k n) x y ≡ digits end op n x y
  unfolding raise
  digits-raise zero n x y le = refl
  digits-raise (suc k) n x y le =
      digits_settle (raise k n) x y (omega (arith, raise_lem k n)) ∙ digits-raise k n x y le

  lowest_digit :
      (x y : ℕ)
      → digits end op (suc x) (suc x) y
        ≡ digits end op (suc x / 2) (suc x / 2) (y / 2) * 2 + op (suc x % 2) (y % 2)
  lowest_digit x y =
      let h = suc x / 2 in
      let enough : x ≡ raise (x - h) h = omega (arith, raise_lem (x - h) h) in
      ap (λ t. t * 2 + op (suc x % 2) (y % 2))
        (ap (λ n. digits end op n h (y / 2)) enough
          ∙ digits-raise (x - h) h h (y / 2) (omega arith))

pub zero-bit_or : (y : ℕ) → bit_or 0 y ≡ y
zero-bit_or = bit_or-bitwise 0

pub bit_and_step : (x y : ℕ) → bit_and x y ≡ bit_and (x / 2) (y / 2) * 2 + min (x % 2) (y % 2)
bit_and_step zero y = omega (arith, bit_and-bitwise 0 y, bit_and-bitwise 0 (y / 2))
bit_and_step (suc x) y =
    bit_and-bitwise (suc x) y
    ∙ lowest_digit (λ t. 0) min x y
    ∙ ap (λ t. t * 2 + min (suc x % 2) (y % 2)) (sym (bit_and-bitwise (suc x / 2) (y / 2)))

pub bit_or_step : (x y : ℕ) → bit_or x y ≡ bit_or (x / 2) (y / 2) * 2 + max (x % 2) (y % 2)
bit_or_step zero y = omega (arith, zero-bit_or y, zero-bit_or (y / 2))
bit_or_step (suc x) y =
    bit_or-bitwise (suc x) y
    ∙ lowest_digit (λ t. t) max x y
    ∙ ap (λ t. t * 2 + max (suc x % 2) (y % 2)) (sym (bit_or-bitwise (suc x / 2) (y / 2)))

pub pow_pos : (k : ℕ) → 0 < 2 ^ k
pow_pos zero = omega arith
pow_pos (suc k) = omega (arith, pow-suc 2 k, pow_pos k)

mod_double : (x p : ℕ) → 0 < p → x % (p * 2) ≡ x / 2 % p * 2 + x % 2
mod_double x p h =
    let e : x ≡ x / 2 % p * 2 + x % 2 + x / 2 / p * (p * 2) =
      omega (arith, div-add-mod' (x / 2) p) in
    let r : (x / 2 % p * 2 + x % 2 + x / 2 / p * (p * 2)) % (p * 2)
        ≡ (x / 2 % p * 2 + x % 2) % (p * 2) =
      add-mul-mod_self_right _ _ _ in
    let s : (x / 2 % p * 2 + x % 2) % (p * 2) ≡ x / 2 % p * 2 + x % 2 =
      mod-eq_of_lt (omega (arith, mod-lt (x / 2) h)) in
    ap (λ t. t % (p * 2)) e ∙ r ∙ s

bit_and-zero : (x : ℕ) → bit_and x 0 ≡ 0
bit_and-zero =
    by_halving (λ x. bit_and x 0 ≡ 0) refl (λ x ih. omega (arith, bit_and_step (suc x) 0, ih))

pub bit_or-zero : (x : ℕ) → bit_or x 0 ≡ x
bit_or-zero =
    by_halving (λ x. bit_or x 0 ≡ x) (zero-bit_or 0)
      (λ x ih. omega (arith, bit_or_step (suc x) 0, ih))

-- `x & (2 ^ k - 1)` keeps the low `k` bits.
pub bit_and_ones : (k x : ℕ) → bit_and x (2 ^ k - 1) ≡ x % 2 ^ k
bit_and_ones zero x = omega (arith, bit_and-zero x)
bit_and_ones (suc k) x = omega (
  arith,
  bit_and_step x (2 ^ suc k - 1),
  ap (bit_and (x / 2)) half,
  bit_and_ones k (x / 2),
  ap (λ (t : ℕ). x % t) (pow-suc 2 k),
  mod_double x (2 ^ k) (pow_pos k),
  half,
  low,
)
  where
    half : (2 ^ suc k - 1) / 2 ≡ 2 ^ k - 1
    half = omega (arith, pow-suc 2 k, pow_pos k)

    low : (2 ^ suc k - 1) % 2 ≡ 1
    low = omega (arith, pow-suc 2 k, pow_pos k)

-- `|` of a multiple of `2 ^ k` and a number below `2 ^ k` is their sum.
pub bit_or_disjoint : (k a b : ℕ) → b < 2 ^ k → bit_or (a * 2 ^ k) b ≡ a * 2 ^ k + b
bit_or_disjoint zero a b h = let e : b ≡ 0 = omega arith in rw e (bit_or-zero (a * 1) ∙ omega arith)
bit_or_disjoint (suc k) a b h = omega (
  arith,
  pow-suc 2 k,
  twice,
  bit_or_step (a * 2 ^ suc k) b,
  ap (λ t. bit_or t (b / 2)) half,
  bit_or_disjoint k a (b / 2) (omega (arith, pow-suc 2 k)),
)
  where
    twice : a * 2 ^ suc k ≡ 2 * (a * 2 ^ k)
    twice = omega (arith, ap (λ (t : ℕ). a * t) (pow-suc 2 k))

    half : a * 2 ^ suc k / 2 ≡ a * 2 ^ k
    half = omega (arith, twice)

bit_and_same : (x : ℕ) → bit_and x x ≡ x
bit_and_same =
    by_halving (λ x. bit_and x x ≡ x) (bit_and-bitwise 0 0)
      (λ x ih. omega (arith, bit_and_step (suc x) (suc x), ih))

-- The number below which `n & (n - 1) == 0` has been checked bounds the recursion.
power_of_two_fuel : (f n : ℕ) → n ≤ f → 0 < n → bit_and n (n - 1) ≡ 0 → (k : ℕ) × (n ≡ 2 ^ k)
power_of_two_fuel zero n le pos h = absurd (omega arith)
power_of_two_fuel (suc f) n le pos h = elim (ℕ_discrete (n % 2) 0) [
  | yes even ↦
      let (k, e) =
        power_of_two_fuel f (n / 2) (omega arith) (omega arith)
          (omega (arith, bit_and_step n (n - 1), ap (bit_and (n / 2)) (below even))) in
      (suc k, omega (arith, pow-suc 2 k))
  | no odd ↦ (
    0,
    omega (arith, bit_and_step n (n - 1), ap (bit_and (n / 2)) (same odd), bit_and_same (n / 2)),
  )
]
  where
    below : n % 2 ≡ 0 → (n - 1) / 2 ≡ n / 2 - 1
    below even = omega arith

    same : n % 2 ≢ 0 → (n - 1) / 2 ≡ n / 2
    same odd = omega arith

-- The test `(n & (n - 1)) == 0` of a positive number says that it is a power of two.
pub power_of_two : (n : ℕ) → 0 < n → bit_and n (n - 1) ≡ 0 → (k : ℕ) × (n ≡ 2 ^ k)
power_of_two n = power_of_two_fuel n n (omega arith)
