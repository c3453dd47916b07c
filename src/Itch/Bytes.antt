-- ===== src/Itch/Bytes.antt =====
-- Byte order conversion: the readers of protocols/itch50/itch50_messages.hpp.
-- A pointer into a buffer is the list of the bytes from there to the buffer's end. A read is `none`
-- where the code would read past that end.
use winter_square.Common.{
  ℕ, zero, suc, ◌+◌, ◌*◌, ◌%◌, ◌^◌, ◌≤◌, ◌<◌, ◌≡◌, refl, ap, ◌∙◌, List, [], ◌∷◌, Option, some,
  bit_or, arith, length, get_elem?, All, ◌>>=◌,
}
use winter_square.Common.Bits.{bit_or_disjoint, pow_pos}
use native.Mathlib.Numerals.{towards_suc}
use native.Mathlib.Nat.{mul-lt-mul_of_pos_right}

abbrev pub IsByte : ℕ → Type 0
IsByte b = b < 256

-- `(uint16_t)a << 8 | b`, which returns through a `uint16_t`
join_u16 : ℕ → ℕ → ℕ
join_u16 a b = bit_or (a * 2 ^ 8) b % 2 ^ 16

join_u32 : ℕ → ℕ → ℕ → ℕ → ℕ
join_u32 a b c d = bit_or (bit_or (bit_or (a * 2 ^ 24 % 2 ^ 32) (b * 2 ^ 16)) (c * 2 ^ 8)) d

join_u64 : ℕ → ℕ → ℕ → ℕ → ℕ → ℕ → ℕ → ℕ → ℕ
join_u64 a b c d e f g h =
    bit_or
      (bit_or
        (bit_or
          (bit_or
            (bit_or (bit_or (bit_or (a * 2 ^ 56 % 2 ^ 64) (b * 2 ^ 48)) (c * 2 ^ 40)) (d * 2 ^ 32))
            (e * 2 ^ 24))
          (f * 2 ^ 16))
        (g * 2 ^ 8))
      h

unfoldable pub read_u16_be : List ℕ → Option ℕ
unfolding join_u16
read_u16_be p = do a ← get_elem? p 0; b ← get_elem? p 1; some (join_u16 a b)

pub read_u32_be : List ℕ → Option ℕ
unfolding join_u32
read_u32_be p = do
  a ← get_elem? p 0
  b ← get_elem? p 1
  c ← get_elem? p 2
  d ← get_elem? p 3
  some (join_u32 a b c d)

pub read_u64_be : List ℕ → Option ℕ
unfolding join_u64
read_u64_be p = do
  a ← get_elem? p 0
  b ← get_elem? p 1
  c ← get_elem? p 2
  d ← get_elem? p 3
  e ← get_elem? p 4
  f ← get_elem? p 5
  g ← get_elem? p 6
  h ← get_elem? p 7
  some (join_u64 a b c d e f g h)

-- The number that the first `n` bytes stand for, the most significant byte first.
unfoldable pub big_endian : ℕ → List ℕ → ℕ
big_endian zero p = 0
big_endian (suc n) [] = 0
big_endian (suc n) (b ∷ p) = b * 256 ^ n + big_endian n p

pow-add_eight : (k : ℕ) → 2 ^ (k + 8) ≡ 256 * 2 ^ k
pow-add_eight k = simp towards_suc (omega arith)

-- `|` of one more byte, `k` bits up, to the number that stands above it.
or_next :
    (k m x b : ℕ) → m ≡ 256 * 2 ^ k → b < 256 → bit_or (x * m) (b * 2 ^ k) ≡ (x * 256 + b) * 2 ^ k
or_next k m x b e h = rw (e, ← pow-add_eight k) (bit_or_disjoint (k + 8) x (b * 2 ^ k) fits ∙ sum)
  where
    fits : b * 2 ^ k < 2 ^ (k + 8)
    fits = rw (pow-add_eight k) (mul-lt-mul_of_pos_right h (pow_pos k))

    sum : x * 2 ^ (k + 8) + b * 2 ^ k ≡ (x * 256 + b) * 2 ^ k
    sum = omega (arith, ap (λ (t : ℕ). x * t) (pow-add_eight k))

join_u16-lem : (a b : ℕ) → IsByte a → IsByte b → join_u16 a b ≡ a * 256 + b
unfolding join_u16
join_u16-lem a b ha hb = omega (arith, bit_or_disjoint 8 a b (omega arith))

join_u32-lem :
    (a b c d : ℕ)
    → IsByte a
    → IsByte b
    → IsByte c
    → IsByte d
    → join_u32 a b c d ≡ ((a * 256 + b) * 256 + c) * 256 + d
unfolding join_u32
join_u32-lem a b c d ha hb hc hd =
    rw (top, or_next 16 (2 ^ 24) a b refl hb, or_next 8 (2 ^ 16) (a * 256 + b) c refl hc)
      (bit_or_disjoint 8 ((a * 256 + b) * 256 + c) d (omega arith) ∙ omega arith)
  where
    top : a * 2 ^ 24 % 2 ^ 32 ≡ a * 2 ^ 24
    top = omega arith

join_u64-lem :
    (a b c d e f g h : ℕ)
    → IsByte a
    → IsByte b
    → IsByte c
    → IsByte d
    → IsByte e
    → IsByte f
    → IsByte g
    → IsByte h
    → join_u64 a b c d e f g h
      ≡ ((((((a * 256 + b) * 256 + c) * 256 + d) * 256 + e) * 256 + f) * 256 + g) * 256 + h
unfolding join_u64
join_u64-lem a b c d e f g h ha hb hc hd he hf hg hh =
    rw
      (
        top,
        or_next 48 (2 ^ 56) a b refl hb,
        or_next 40 (2 ^ 48) (a * 256 + b) c refl hc,
        or_next 32 (2 ^ 40) ((a * 256 + b) * 256 + c) d refl hd,
        or_next 24 (2 ^ 32) (((a * 256 + b) * 256 + c) * 256 + d) e refl he,
        or_next 16 (2 ^ 24) ((((a * 256 + b) * 256 + c) * 256 + d) * 256 + e) f refl hf,
        or_next 8 (2 ^ 16) (((((a * 256 + b) * 256 + c) * 256 + d) * 256 + e) * 256 + f) g refl hg,
      )
      (bit_or_disjoint 8 _ h hh)
  where
    top : a * 2 ^ 56 % 2 ^ 64 ≡ a * 2 ^ 56
    top = omega arith

-- On two bytes at least the reader returns their big-endian number.
pub read_u16_be-eq :
    (p : List ℕ) → All IsByte p → 2 ≤ length p → read_u16_be p ≡ some (big_endian 2 p)
unfolding read_u16_be big_endian
read_u16_be-eq [] v h = absurd (omega arith)
read_u16_be-eq (a ∷ []) v h = absurd (omega arith)
read_u16_be-eq (a ∷ b ∷ p) v h = ap some (omega (arith, join_u16-lem a b v.0 v.1.0))

pub read_u32_be-eq :
    (p : List ℕ) → All IsByte p → 4 ≤ length p → read_u32_be p ≡ some (big_endian 4 p)
unfolding read_u32_be big_endian
read_u32_be-eq [] v h = absurd (omega arith)
read_u32_be-eq (a ∷ []) v h = absurd (omega arith)
read_u32_be-eq (a ∷ b ∷ []) v h = absurd (omega arith)
read_u32_be-eq (a ∷ b ∷ c ∷ []) v h = absurd (omega arith)
read_u32_be-eq (a ∷ b ∷ c ∷ d ∷ p) (ha, (hb, (hc, (hd, _)))) h =
    ap some (omega (arith, join_u32-lem a b c d ha hb hc hd))

pub read_u64_be-eq :
    (p : List ℕ) → All IsByte p → 8 ≤ length p → read_u64_be p ≡ some (big_endian 8 p)
unfolding read_u64_be big_endian
read_u64_be-eq (a ∷ b ∷ c ∷ d ∷ e ∷ f ∷ g ∷ h ∷ p) (ha, (hb, (hc, (hd, (he, (hf, (hg, (hh, _))))))))
      lt =
    ap some (omega (arith, join_u64-lem a b c d e f g h ha hb hc hd he hf hg hh))
read_u64_be-eq _ v lt = absurd (omega arith)
