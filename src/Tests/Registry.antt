-- ===== src/Tests/Registry.antt =====
-- Registrations of parsers (protocols/common/parser_registry.hpp) on concrete inputs.
use winter_square.Common.{ℕ, ◌≡◌, refl, ◌↔◌, true, List, [], ◌∷◌, map, some, none, ◌*◌}
use winter_square.Registry.{
  Name, same_name, find, has_parser, register_parser, create_parser, list_parsers, registrations,
}
use winter_square.Registry.First.{registrations_first}
use mathlib.Core.List.{Mem, Nodup, eq-or-mem_of_mem-cons, not-mem-nil}
use mathlib.Core.Logic.Or
use mathlib.Core.List.Perm

abbrev itch50 : Name
itch50 = b'i' ∷ b't' ∷ b'c' ∷ b'h' ∷ b'5' ∷ b'0' ∷ []

abbrev echo : Name
echo = b'e' ∷ b'c' ∷ b'h' ∷ b'o' ∷ []

-- The third registration comes too late.
abbrev regs : List (Name × ℕ)
regs = (itch50, 1) ∷ (echo, 2) ∷ (itch50, 3) ∷ []

abbrev double : ℕ → ℕ
double n = n * 2

create-regs :
    (create_parser double (registrations [] regs) itch50 ≡ some 2)
    × (create_parser double (registrations [] regs) (b'x' ∷ []) ≡ none)
unfolding registrations register_parser has_parser find same_name create_parser
create-regs = (refl, refl)

other_name : ¬ Mem echo (itch50 ∷ [])
other_name m =
    Or.elim (λ a b. absurd a) (eq-or-mem_of_mem-cons m) (λ e. absurd (unlike e))
      (λ rest. absurd (not-mem-nil rest))
  where
    unlike : ¬ (echo ≡ itch50)
    unlike e = cc

registrations_first_example :
    let r = registrations [] regs in
    (create_parser double r echo ≡ some 4)
    × ((n : Name)
        → ((create_parser double r n ≡ none) ↔ ¬ Mem n (map (λ entry. entry.0) regs))
          × ((has_parser r n ≡ true) ↔ Mem n (map (λ entry. entry.0) regs))
          × (Mem n (list_parsers (λ entries. entries) r) ↔ Mem n (map (λ entry. entry.0) regs)))
    × Nodup (list_parsers (λ entries. entries) r)
registrations_first_example =
    registrations_first double (λ entries. entries) ((itch50, 1) ∷ []) ((itch50, 3) ∷ []) echo 2
      (λ entries. Perm.refl entries) other_name
