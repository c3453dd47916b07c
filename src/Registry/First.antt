-- ===== src/Registry/First.antt =====
-- The first registration of a name is the one that counts.
use winter_square.Common.{
  ◌≡◌, refl, sym, ap, ap₂, ◌∙◌, ◌↔◌, Bool, true, false, List, [], ◌∷◌, ◌++◌, ◌>>=◌, map, Option,
  some, none, ◌==◌, if◌then◌else◌, Bool-cases, inl, inr, arith, ==-yes,
}
use winter_square.Registry.{
  Name, same_name, find, is_some, has_parser, register_parser, create_parser, list_parsers,
  registrations,
}
use mathlib.Core.Bool.{Bool-set}
use mathlib.Core.Logic.Or
use mathlib.Core.Path.{subst}
use mathlib.Core.List.Perm
use mathlib.Core.List.{
  Mem, Nodup, Nodup-nil, Nodup-cons, Perm, mem-cons_self, mem-cons_of_mem, eq-or-mem_of_mem-cons,
  not-mem-nil,
}

same_name_refl : (n : Name) → same_name n n ≡ true
unfolding same_name
same_name_refl [] = refl
same_name_refl (c ∷ n) = rw (==-yes {a = c} refl, same_name_refl n) refl

same_name_eq : (n m : Name) → same_name n m ≡ true → n ≡ m
unfolding same_name
same_name_eq [] [] e = refl
same_name_eq [] (d ∷ m) e = cc
same_name_eq (c ∷ n) [] e = cc
same_name_eq (c ∷ n) (d ∷ m) e = elim (Bool-cases (c == d)) [
  | inl same ↦ ap₂ (λ x y. x ∷ y) (grind arith) (same_name_eq n m (rw same at e))
  | inr other ↦ cc (rw other at e)
]

differs : {b : Bool} → b ≡ false → b ≡ true → ⊥
differs e f = cc

module _ {F : Type 0} where
  Distinct : List (Name × F) → Type 0
  Distinct factories = Nodup (map (λ entry. entry.0) factories)

  has-Mem :
      (factories : List (Name × F)) (name : Name)
      → has_parser factories name ≡ true
      → Mem name (map (λ entry. entry.0) factories)
  unfolding has_parser find
  has-Mem [] name e = cc
  has-Mem ((k, factory) ∷ factories) name e = elim (Bool-cases (same_name k name)) [
    | inl same ↦
        subst (λ n. Mem n (k ∷ map (λ entry. entry.0) factories)) (same_name_eq k name same)
          mem-cons_self
    | inr other ↦ mem-cons_of_mem k (has-Mem factories name (rw other at e))
  ]

  Mem-has :
      (factories : List (Name × F)) (name : Name)
      → Mem name (map (λ entry. entry.0) factories)
      → has_parser factories name ≡ true
  unfolding has_parser find
  Mem-has [] name m = absurd (not-mem-nil m)
  Mem-has ((k, factory) ∷ factories) name m = elim (Bool-cases (same_name k name)) [
    | inl same ↦ rw same refl
    | inr other ↦
        Or.elim (Bool-set (has_parser ((k, factory) ∷ factories) name) true)
          (eq-or-mem_of_mem-cons m)
          (λ e.
            absurd (differs other (subst (λ n. same_name k n ≡ true) (sym e) (same_name_refl k))))
          (λ rest. rw other (Mem-has factories name rest))
  ]

  registered-Distinct :
      (factories : List (Name × F)) (name : Name) (factory : F)
      → Distinct factories
      → Distinct (register_parser factories name factory).1
  unfolding register_parser Distinct
  registered-Distinct factories name factory d = elim (Bool-cases (has_parser factories name)) [
    | inl old ↦ rw old d
    | inr new ↦ rw new (Nodup-cons.1 (λ m. differs new (Mem-has factories name m), d))
  ]

  registrations-Distinct :
      (factories more : List (Name × F))
      → Distinct factories
      → Distinct (registrations factories more)
  unfolding registrations
  registrations-Distinct factories [] d = d
  registrations-Distinct factories ((name, factory) ∷ more) d =
      registrations-Distinct (register_parser factories name factory).1 more
        (registered-Distinct factories name factory d)

  -- What a registry finds, and then what other registrations would give.
  abbrev or_else : Option F → Option F → Option F
  or_else none later = later
  or_else (some factory) later = some factory

  or_else_some : (o later : Option F) → is_some o ≡ true → or_else o later ≡ o
  or_else_some none later e = cc
  or_else_some (some factory) later e = refl

  or_else_none : (o later : Option F) → is_some o ≡ false → or_else o later ≡ later
  or_else_none none later e = refl
  or_else_none (some factory) later e = cc

  or_else_last : (o : Option F) → or_else o none ≡ o
  or_else_last none = refl
  or_else_last (some factory) = refl

  or_else_assoc : (o p q : Option F) → or_else (or_else o p) q ≡ or_else o (or_else p q)
  or_else_assoc none p q = refl
  or_else_assoc (some factory) p q = refl

  find-register_parser :
      (factories : List (Name × F)) (n name : Name) (factory : F)
      → find (register_parser factories n factory).1 name
        ≡ or_else (find factories name) (if same_name n name then some factory else none)
  unfolding register_parser has_parser
  find-register_parser factories n name factory = elim (Bool-cases (same_name n name)) [
    | inl same ↦
        let e : n ≡ name = same_name_eq n name same in
        elim (Bool-cases (is_some (find factories n))) [
          | inl old ↦
              rw (old, same) (sym (or_else_some (find factories name) (some factory) (rw e at old)))
          | inr new ↦
              rw (new, same) (sym (or_else_none (find factories name) (some factory) (rw e at new)))
        ]
    | inr other ↦ elim (Bool-cases (is_some (find factories n))) [
      | inl old ↦ rw (old, other) (sym (or_else_last (find factories name)))
      | inr new ↦ rw (new, other) (sym (or_else_last (find factories name)))
    ]
  ]

  find_cons :
      (n name : Name) (factory : F) (factories : List (Name × F))
      → or_else (if same_name n name then some factory else none) (find factories name)
        ≡ find ((n, factory) ∷ factories) name
  unfolding find
  find_cons n name factory factories = elim (Bool-cases (same_name n name)) [
    | inl same ↦ rw same refl
    | inr other ↦ rw other refl
  ]

  find-registrations :
      (factories more : List (Name × F)) (name : Name)
      → find (registrations factories more) name ≡ or_else (find factories name) (find more name)
  unfolding registrations
  find-registrations factories [] name = sym (or_else_last (find factories name))
  find-registrations factories ((n, factory) ∷ more) name =
      find-registrations (register_parser factories n factory).1 more name
      ∙ ap (λ o. or_else o (find more name)) (find-register_parser factories n name factory)
      ∙ or_else_assoc (find factories name) _ (find more name)
      ∙ ap (or_else (find factories name)) (find_cons n name factory more)

  -- The first entry of a name is the one that is found.
  find-first :
      (before after : List (Name × F)) (name : Name) (factory : F)
      → ¬ Mem name (map (λ entry. entry.0) before)
      → find (before ++ (name, factory) ∷ after) name ≡ some factory
  unfolding find
  find-first [] after name factory new = rw (same_name_refl name) refl
  find-first ((k, other) ∷ before) after name factory new = elim (Bool-cases (same_name k name)) [
    | inl same ↦ absurd (
        new (
          subst (λ n. Mem n (k ∷ map (λ entry. entry.0) before)) (same_name_eq k name same)
            mem-cons_self))
    | inr differ ↦ rw differ (find-first before after name factory (λ m. new (mem-cons_of_mem k m)))
  ]

  -- A name is found exactly if an entry has it.
  has_iff :
      (factories : List (Name × F)) (name : Name)
      → (has_parser factories name ≡ true) ↔ Mem name (map (λ entry. entry.0) factories)
  has_iff factories name = (has-Mem factories name, Mem-has factories name)

  none_iff :
      {P : Type 0} (make : F → P) (o : Option F)
      → ((o >>= (λ factory. some (make factory))) ≡ none) ↔ ¬ (is_some o ≡ true)
  none_iff make none = (λ e h. cc, λ h. refl)
  none_iff make (some factory) = (λ e h. cc, λ h. absurd (h refl))

  -- Registrations at the start of the program, of which one is the first of its name, and an order in which
  -- the map is iterated, which is a permutation of its entries: the registry creates a parser for this
  -- name by this registration's factory. For any name it creates none exactly if no registration has
  -- it; `has_parser` answers true exactly if one has it; and the list of parsers has
  -- exactly the names of the registrations, each once.
  pub registrations_first :
      {P : Type 0} (make : F → P) (iterate : List (Name × F) → List (Name × F))
      (before after : List (Name × F)) (name : Name) (factory : F)
      → ((factories : List (Name × F)) → Perm (iterate factories) factories)
      → ¬ Mem name (map (λ entry. entry.0) before)
      → let regs = before ++ (name, factory) ∷ after in
        let r = registrations [] regs in
        (create_parser make r name ≡ some (make factory))
        × ((n : Name)
            → ((create_parser make r n ≡ none) ↔ ¬ Mem n (map (λ entry. entry.0) regs))
              × ((has_parser r n ≡ true) ↔ Mem n (map (λ entry. entry.0) regs))
              × (Mem n (list_parsers iterate r) ↔ Mem n (map (λ entry. entry.0) regs)))
        × Nodup (list_parsers iterate r)
  unfolding create_parser has_parser list_parsers Distinct
  registrations_first make iterate before after name factory permutes new =
      let regs = before ++ (name, factory) ∷ after in
      let r = registrations [] regs in
      let same : (n : Name) → find r n ≡ find regs n = λ n. find-registrations [] regs n in
      let perm = Perm.map (λ entry. entry.0) (permutes r) in
      (
        rw (same name, find-first before after name factory new) refl,
        λ n.
            let has = has_iff regs n in
            let old : is_some (find r n) ≡ is_some (find regs n) = ap is_some (same n) in
            let at = none_iff make (find r n) in
            (
              (λ e m. at.0 e (old ∙ has.1 m), λ no. at.1 (λ e. no (has.0 (sym old ∙ e)))),
              (λ e. has.0 (sym old ∙ e), λ m. old ∙ has.1 m),
              (
                λ m. has.0 (sym old ∙ Mem-has r n ((Perm.mem_iff perm).0 m)),
                λ m. (Perm.mem_iff perm).1 (has-Mem r n (old ∙ has.1 m)),
              ),
            ),
        Perm.nodup (Perm.symm perm) (registrations-Distinct [] regs Nodup-nil),
      )
