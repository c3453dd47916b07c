-- ===== src/Common/Tables.antt =====
-- Functions from numbers as tables with one entry for each number.
use Prim.Native.Nat.{ℕ}
use mathlib.Core.Path.{◌≡◌}
use mathlib.Core.Logic.{◌≢◌}
use native.Mathlib.Decide.{ℕ_discrete}
use winter_square.Common.Tests.{◌==◌, if◌then◌else◌, ==-yes, ==-no}

module _ {ℓ} {A : Type ℓ} where
  abbrev pub set_entry : ℕ → A → (ℕ → A) → ℕ → A
  set_entry k v table j = if k == j then v else table j

  -- What holds of the new entry and of the other old ones holds of all.
  pub set_entry-cases {κ} :
      (P : A → Type κ) (k : ℕ) (v : A) (table : ℕ → A) (j : ℕ)
      → (k ≡ j → P v)
      → (k ≢ j → P (table j))
      → P (set_entry k v table j)
  set_entry-cases P k v table j same other = elim (ℕ_discrete k j) [
    | yes e ↦ rw (==-yes e) (same e)
    | no ne ↦ rw (==-no ne) (other ne)
  ]
