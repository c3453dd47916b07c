-- ===== src/Itch/Decode/Fields.antt =====
-- Reading a field at an offset of a buffer that is long enough.
use winter_square.Common.{
  ℕ, zero, suc, ◌+◌, ◌≤◌, ◌<◌, ◌≡◌, refl, List, [], ◌∷◌, some, arith, length, length-drop, drop,
  take, get_elem?, get_or, All, All-drop,
}
use winter_square.Itch.Handlers.{read_chars}
use winter_square.Itch.Bytes.{
  IsByte, big_endian, read_u16_be, read_u32_be, read_u64_be, read_u16_be-eq, read_u32_be-eq,
  read_u64_be-eq,
}

abbrev pub u8 : List ℕ → ℕ → ℕ
u8 p o = get_or p o 0

abbrev pub u16 : List ℕ → ℕ → ℕ
u16 p o = big_endian 2 (drop o p)

abbrev pub u32 : List ℕ → ℕ → ℕ
u32 p o = big_endian 4 (drop o p)

abbrev pub u64 : List ℕ → ℕ → ℕ
u64 p o = big_endian 8 (drop o p)

module _ (p : List ℕ) (bytes : All IsByte p) (o : ℕ) where
  pub read_u16 : o + 2 ≤ length p → read_u16_be (drop o p) ≡ some (u16 p o)
  read_u16 h =
      read_u16_be-eq (drop o p) (All-drop IsByte o p bytes) (omega (arith, length-drop o p))

  pub read_u32 : o + 4 ≤ length p → read_u32_be (drop o p) ≡ some (u32 p o)
  read_u32 h =
      read_u32_be-eq (drop o p) (All-drop IsByte o p bytes) (omega (arith, length-drop o p))

  pub read_u64 : o + 8 ≤ length p → read_u64_be (drop o p) ≡ some (u64 p o)
  read_u64 h =
      read_u64_be-eq (drop o p) (All-drop IsByte o p bytes) (omega (arith, length-drop o p))

pub get_elem?-some : (p : List ℕ) (i : ℕ) → i < length p → get_elem? p i ≡ some (get_or p i 0)
get_elem?-some [] i h = elim h [ ]
get_elem?-some (x ∷ p) zero h = refl
get_elem?-some (x ∷ p) (suc i) h = get_elem?-some p i (omega arith)

pub read_u8 : (p : List ℕ) (o : ℕ) → o + 1 ≤ length p → get_elem? (drop o p) 0 ≡ some (u8 p o)
read_u8 [] o h = absurd (omega arith)
read_u8 (x ∷ p) zero h = refl
read_u8 (x ∷ p) (suc o) h = read_u8 p o (omega arith)

pub read_chars-take :
    (p : List ℕ) (o n : ℕ) → o + n ≤ length p → read_chars (drop o p) n ≡ some (take n (drop o p))
read_chars-take p zero zero h = refl
read_chars-take [] zero (suc n) h = absurd (omega arith)
read_chars-take (x ∷ p) zero (suc n) h = rw (read_chars-take p zero n (omega arith))
read_chars-take [] (suc o) zero h = refl
read_chars-take [] (suc o) (suc n) h = absurd (omega arith)
read_chars-take (x ∷ p) (suc o) n h = read_chars-take p o n (omega arith)
