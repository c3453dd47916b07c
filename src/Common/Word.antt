-- ===== src/Common/Word.antt =====
-- Arithmetic of `size_t` and `uint64_t`: sums and differences wrap at 2 ^ 64.
use Prim.Native.Nat.{ℕ, ◌+◌, ◌-◌, ◌%◌, ◌^◌, ◌<◌, ◌≤◌}
use mathlib.Core.Path.{◌≡◌}
use native.Mathlib.Omega.{arith}

abbrev pub add_u64 : ℕ → ℕ → ℕ
add_u64 a b = (a + b) % 2 ^ 64

abbrev pub sub_u64 : ℕ → ℕ → ℕ
sub_u64 a b = (a + 2 ^ 64 - b) % 2 ^ 64

abbrev pub add_u32 : ℕ → ℕ → ℕ
add_u32 a b = (a + b) % 2 ^ 32

pub sub_u64_of_le : (a b : ℕ) → a < 2 ^ 64 → b ≤ a → sub_u64 a b ≡ a - b
sub_u64_of_le a b h le = omega arith
