-- ===== src/Registry.antt =====
-- `ParserRegistry` of protocols/common/parser_registry.hpp, a map from names to factories of parsers, and
-- the registrations that static objects make before `main`. Names are the bytes of the strings. A
-- factory is a value of a type `F`, and calling it is `make`; the order of an `unordered_map` is
-- that of `iterate`, which may be any.
pub mod First
use winter_square.Common.{
  ℕ, Bool, true, false, ◌&&◌, List, [], ◌∷◌, map, Option, some, none, ◌==◌, if◌then◌else◌, ◌>>=◌,
}

abbrev pub Name : Type 0
Name = List ℕ

unfoldable pub same_name : Name → Name → Bool
same_name [] [] = true
same_name [] (d ∷ m) = false
same_name (c ∷ n) [] = false
same_name (c ∷ n) (d ∷ m) = (c == d) && same_name n m

module _ {F : Type 0} where
  -- `factories_.find(name)`
  unfoldable pub find : List (Name × F) → Name → Option F
  unfolding same_name
  find [] name = none
  find ((k, factory) ∷ factories) name =
      if same_name k name then some factory else find factories name

  abbrev pub is_some : Option F → Bool
  is_some none = false
  is_some (some factory) = true

  unfoldable pub has_parser : List (Name × F) → Name → Bool
  unfolding find
  has_parser factories name = is_some (find factories name)

  -- `emplace` inserts only under a new name.
  unfoldable pub register_parser : List (Name × F) → Name → F → Bool × List (Name × F)
  unfolding has_parser
  register_parser factories name factory =
      if has_parser factories name then (false, factories) else (true, (name, factory) ∷ factories)

  -- `none` is a null pointer.
  unfoldable pub create_parser : {P : Type 0} → (F → P) → List (Name × F) → Name → Option P
  unfolding find
  create_parser make factories name = do factory ← find factories name; some (make factory)

  unfoldable pub list_parsers : (List (Name × F) → List (Name × F)) → List (Name × F) → List Name
  list_parsers iterate factories = map (λ entry. entry.0) (iterate factories)

  -- The objects of `REGISTER_PARSER`, in the order in which they are initialized; each ignores whether
  -- its factory was taken.
  unfoldable pub registrations : List (Name × F) → List (Name × F) → List (Name × F)
  unfolding register_parser
  registrations factories [] = factories
  registrations factories ((name, factory) ∷ more) =
      registrations (register_parser factories name factory).1 more
