-- ===== src/Core/Engine/Threads/Log.antt =====
-- What the history of a running engine's threads comes to.
use winter_square.Common.{
  ℕ, zero, suc, ◌<◌, ◌≡◌, ◌≢◌, refl, ap, ◌⊎◌, inl, inr, Bool, true, false, List, [], ◌∷◌, ◌++◌, map,
  Option, some, none, arith, ltb, if◌then◌else◌, length, take, drop, get_elem?, set, ◌>>=◌, All,
}
use winter_square.Common.Word.{add_u32}
use winter_square.Core.Types.{NormalizedMessage}
use winter_square.Core.Parser.{Parser}
use winter_square.Core.Receiver.{Packet}
use winter_square.Core.Receiver.Views.{view_of}
use winter_square.Core.Engine.Threads.{Place, reading, dispatching, posting}
use mathlib.Core.Option.{some-injective}

-- The items for which `push` returned `true`.
abbrev pub accepted {ℓ} : {A : Type ℓ} → List (A × Bool) → List A
accepted [] = []
accepted ((x, b) ∷ rest) = if b then x ∷ accepted rest else accepted rest

pub accepted-append {ℓ} :
    {A : Type ℓ} (xs ys : List (A × Bool)) → accepted (xs ++ ys) ≡ accepted xs ++ accepted ys
accepted-append [] ys = refl
accepted-append ((x, true) ∷ xs) ys = ap (λ r. x ∷ r) (accepted-append xs ys)
accepted-append ((x, false) ∷ xs) ys = accepted-append xs ys

abbrev pub asked {ℓ} : {A : Type ℓ} → List (A × Bool) → List A
asked xs = map (λ r. r.0) xs

pub asked-append {ℓ} :
    {A : Type ℓ} (xs ys : List (A × Bool)) → asked (xs ++ ys) ≡ asked xs ++ asked ys
asked-append [] ys = refl
asked-append (x ∷ xs) ys = ap (λ r. x.0 ∷ r) (asked-append xs ys)

pub accepted-asked {ℓ} :
    {A : Type ℓ} (xs : List (A × Bool)) → All (λ r. r.1 ≡ true) xs → accepted xs ≡ asked xs
accepted-asked [] h = refl
accepted-asked ((x, b) ∷ xs) h = rw h.0 (ap (λ r. x ∷ r) (accepted-asked xs h.1))

-- The messages of the packet in hand that are still to be posted to the `k`th queue.
abbrev pub pending : Place → List NormalizedMessage → ℕ → List NormalizedMessage
pending reading messages k = []
pending (dispatching parse_start count i) messages k = drop i (take count messages)
pending (posting parse_start count i now j) messages k =
    if ltb k j then drop (suc i) (take count messages) else drop i (take count messages)

-- What some packets have come to: their messages, and the array, the parser and the number of the
-- next packet.
pub record Taken (P : Type 0) : Type 0 where
  pub parsed : List NormalizedMessage
  pub messages : List NormalizedMessage
  pub parser : P
  pub sequence : ℕ

module _ {P : Type 0} (parser_ops : Parser P) where
  unfoldable pub take_packet : Taken P → Packet → Option (Taken P)
  take_packet t p = do
    (count, messages, parser) ←
        parser_ops.parse t.parser (view_of t.sequence p) t.messages (length t.messages)
    some (record {
      parsed = t.parsed ++ take count messages;
      messages = messages;
      parser = parser;
      sequence = add_u32 t.sequence 1;
    })

  -- Packets parsed one after the other.
  unfoldable pub parse_each : Taken P → List Packet → Option (Taken P)
  parse_each t [] = some t
  parse_each t (p ∷ ps) = take_packet t p >>= λ t'. parse_each t' ps

  pub parse_each-snoc :
      (ps : List Packet) (p : Packet) (t : Taken P) {t' : Taken P}
      → parse_each t ps ≡ some t'
      → parse_each t (ps ++ p ∷ []) ≡ take_packet t' p
  unfolding parse_each
  parse_each-snoc [] p t {t'} e = rw (some-injective _ _ e) (last (take_packet t' p))
    where
      last : (r : Option (Taken P)) → r >>= (λ x. some x) ≡ r
      last none = refl
      last (some x) = refl
  parse_each-snoc (x ∷ ps) p t {t'} e = after (λ y f. parse_each-snoc ps p y f) (take_packet t x) e
    where
      after :
          ((y : Taken P)
            → parse_each y ps ≡ some t'
            → parse_each y (ps ++ p ∷ []) ≡ take_packet t' p)
          → (r : Option (Taken P)) → r >>= (λ x. parse_each x ps) ≡ some t'
          → r >>= (λ x. parse_each x (ps ++ p ∷ [])) ≡ take_packet t' p
      after ih none f = cc
      after ih (some y) f = ih y f

-- What a write into a list leaves at an index.
pub set_cases {ℓ} :
    {A : Type ℓ} (xs : List A) (j k : ℕ) (v : A) {y : A}
    → get_elem? (set xs j v) k ≡ some y
    → ((j ≡ k) × (v ≡ y)) ⊎ ((j ≢ k) × (get_elem? xs k ≡ some y))
set_cases [] j k v e = cc
set_cases (x ∷ xs) zero zero v e = inl (refl, some-injective _ _ e)
set_cases (x ∷ xs) zero (suc k) v e = inr (λ z. omega arith, e)
set_cases (x ∷ xs) (suc j) zero v e = inr (λ z. omega arith, e)
set_cases (x ∷ xs) (suc j) (suc k) v e = elim (set_cases xs j k v e) [
  | inl (a, b) ↦ inl (ap suc a, b)
  | inr (a, b) ↦ inr (λ z. a (omega arith), b)
]

module _ {A : Type 0} where
  pub drop-take_all : (n : ℕ) (xs : List A) → drop n (take n xs) ≡ []
  drop-take_all zero xs = refl
  drop-take_all (suc n) [] = refl
  drop-take_all (suc n) (x ∷ xs) = drop-take_all n xs

  pub drop-take_at :
      (i n : ℕ) (xs : List A) {x : A}
      → get_elem? xs i ≡ some x
      → i < n
      → drop i (take n xs) ≡ x ∷ drop (suc i) (take n xs)
  drop-take_at i zero xs e h = absurd (omega arith)
  drop-take_at i (suc n) [] e h = cc
  drop-take_at zero (suc n) (x ∷ xs) e h = ap (λ y. y ∷ take n xs) (some-injective _ _ e)
  drop-take_at (suc i) (suc n) (x ∷ xs) e h = drop-take_at i n xs e (omega arith)
