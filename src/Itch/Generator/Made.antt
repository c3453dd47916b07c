-- ===== src/Itch/Generator/Made.antt =====
-- The messages of many draws: their numbers go on from one to the next.
use winter_square.Common.{
  ℕ, zero, suc, ◌+◌, ◌%◌, ◌^◌, ◌<◌, ◌≡◌, refl, sym, ap, ap₂, ◌∙◌, List, [], ◌∷◌, ◌++◌, map, some,
  arith, length, All, All-append, length-append,
}
use winter_square.Common.Word.{add_u64}
use winter_square.Itch.Packet.Sent.{Sent, add_order, executed, traded, bytes_of, InRange}
use winter_square.Itch.Generator.{Generator, Draw, stocks, build_drawn, make_message, make_messages}
use mathlib.Core.List.{map-append}
use winter_square.Itch.Generator.Numbers.{
  IsDrawn, IsCounting, count_from, tracking_of, new_orders, matches, IsNumbered, IsNext,
}
use winter_square.Itch.Generator.Drawn.{
  drawn, build_drawn-drawn, drawn-IsNumbered, IsStock, get_elem?-All, stocks-IsStock,
}

new_orders-append : (xs ys : List Sent) → new_orders (xs ++ ys) ≡ new_orders xs ++ new_orders ys
unfolding new_orders
new_orders-append [] ys = refl
new_orders-append (add_order locate tracking time order side shares price stock ∷ xs) ys =
    ap (λ r. order ∷ r) (new_orders-append xs ys)
new_orders-append (executed locate tracking time order shares match_number ∷ xs) ys =
    new_orders-append xs ys
new_orders-append (traded locate tracking time order side shares price match_number stock ∷ xs) ys =
    ap (λ r. order ∷ r) (new_orders-append xs ys)

matches-append : (xs ys : List Sent) → matches (xs ++ ys) ≡ matches xs ++ matches ys
unfolding matches
matches-append [] ys = refl
matches-append (add_order locate tracking time order side shares price stock ∷ xs) ys =
    matches-append xs ys
matches-append (executed locate tracking time order shares match_number ∷ xs) ys =
    ap (λ r. match_number ∷ r) (matches-append xs ys)
matches-append (traded locate tracking time order side shares price match_number stock ∷ xs) ys =
    ap (λ r. match_number ∷ r) (matches-append xs ys)

count_from-add :
    (start a b : ℕ)
    → start < 2 ^ 64
    → count_from start (a + b) ≡ count_from start a ++ count_from (add_u64 start a) b
unfolding count_from
count_from-add start zero b h = ap₂ count_from (omega arith) (omega arith)
count_from-add start (suc a) b h =
    let unary : suc a + b ≡ suc (a + b) = omega arith in
    ap (count_from start) unary
    ∙ ap (λ r. start ∷ r)
        (count_from-add (add_u64 start 1) a b (omega arith)
          ∙ ap (λ k. count_from (add_u64 start 1) a ++ count_from k b) (omega arith))

-- A counter that two runs use one after the other.
counted_on :
    (start : ℕ) (xs ys : List ℕ)
    → start < 2 ^ 64
    → xs ≡ count_from start (length xs)
    → ys ≡ count_from (add_u64 start (length xs)) (length ys)
    → xs ++ ys ≡ count_from start (length (xs ++ ys))
counted_on start xs ys h ex ey =
    ap₂ (λ a b. a ++ b) ex ey
    ∙ sym (count_from-add start (length xs) (length ys) h)
    ∙ ap (count_from start) (sym (length-append xs ys))

pub IsNext-IsCounting :
    {g g' : Generator} {ms : List Sent} {n : ℕ} → IsNext g g' ms n → IsCounting g'
IsNext-IsCounting t = record {
  sequence = omega (arith, t.next_sequence);
  orders = omega (arith, t.next_order);
  matches = omega (arith, t.next_match);
}

pub IsNumbered-append :
    {g g' : Generator} {ms ns : List Sent} {m n k : ℕ}
    → k ≡ m + n
    → IsCounting g
    → IsNumbered g ms m
    → IsNext g g' ms m
    → IsNumbered g' ns n
    → IsNumbered g (ms ++ ns) k
IsNumbered-append {g = g} {ms = ms} {ns = ns} {m = m} {n = n} e counting t next u = record {
  count = omega (arith, e, length-append ms ns, t.count, u.count);
  in_range = All-append InRange ms ns t.in_range u.in_range;
  trackings =
      map-append tracking_of ms ns
      ∙ ap₂ (λ a b. a ++ b) t.trackings
          (u.trackings ∙ ap (λ k. map (λ k. k % 2 ^ 16) (count_from k n)) next.next_sequence)
      ∙ sym (
          map-append (λ k. k % 2 ^ 16) (count_from g.sequence m)
            (count_from (add_u64 g.sequence m) n))
      ∙ ap (λ r. map (λ k. k % 2 ^ 16) r)
          (sym (count_from-add g.sequence m n counting.sequence)
            ∙ ap (count_from g.sequence) (sym e));
  orders = rw (new_orders-append ms ns) (
      counted_on g.order_id_counter (new_orders ms) (new_orders ns) counting.orders t.orders
        (rw next.next_order at u.orders));
  matched = rw (matches-append ms ns) (
      counted_on g.match_number_counter (matches ms) (matches ns) counting.matches t.matched
        (rw next.next_match at u.matched));
}

IsNext-append :
    {g g' g'' : Generator} {ms ns : List Sent} {m n k : ℕ}
    → k ≡ m + n
    → IsNext g g' ms m
    → IsNext g' g'' ns n
    → IsNext g g'' (ms ++ ns) k
IsNext-append {ms = ms} {ns = ns} e t u = record {
  next_sequence = omega (arith, e, t.next_sequence, u.next_sequence);
  next_order = omega (
    arith,
    t.next_order,
    u.next_order,
    length-append (new_orders ms) (new_orders ns),
    ap length (new_orders-append ms ns),
  );
  next_match = omega (
    arith,
    t.next_match,
    u.next_match,
    length-append (matches ms) (matches ns),
    ap length (matches-append ms ns),
  );
  sent_before = u.sent_before ∙ t.sent_before;
}

pub none-IsNumbered : (g : Generator) → IsNumbered g [] 0
unfolding count_from new_orders matches
none-IsNumbered g = record {
  count = refl;
  in_range = tt;
  trackings = refl;
  orders = refl;
  matched = refl;
}

nothing-IsNext : (g : Generator) → IsCounting g → IsNext g g [] 0
unfolding new_orders matches
nothing-IsNext g counting = record {
  next_sequence = omega (arith, counting);
  next_order = omega (arith, counting);
  next_match = omega (arith, counting);
  sent_before = refl;
}

-- What `make_messages` returns for draws in the distributions' ranges.
pub record Made (g : Generator) (time : ℕ) (draws : List Draw) : Type 0 where
  pub messages : List Sent
  pub after : Generator
  pub made : make_messages g time draws ≡ some (map bytes_of messages, after)
  pub numbered : IsNumbered g messages (length draws)
  pub is_next : IsNext g after messages (length draws)

pub make_messages-Made :
    (g : Generator) (time : ℕ) (draws : List Draw)
    → IsCounting g
    → time < 2 ^ 64
    → All IsDrawn draws
    → Made g time draws
unfolding make_messages make_message
make_messages-Made g time [] counting now drawn_all = record {
  messages = [];
  after = g;
  made = refl;
  numbered = none-IsNumbered g;
  is_next = nothing-IsNext g counting;
}
make_messages-Made g time (d ∷ draws) counting now (is_drawn, drawn_all) =
    let (stock, at, is_stock) =
      get_elem?-All IsStock stocks d.stock_idx stocks-IsStock (omega (arith, is_drawn)) in
    let (first, next) = drawn-IsNumbered g time d stock is_drawn counting now is_stock in
    let rest =
      make_messages-Made (build_drawn g time d stock).1 time draws (IsNext-IsCounting next) now
        drawn_all in
    record {
      messages = drawn g time d stock ∷ rest.messages;
      after = rest.after;
      made =
          rw (at, rest.made, build_drawn-drawn g time d stock is_drawn counting now is_stock) refl;
      numbered = IsNumbered-append (omega arith) counting first next rest.numbered;
      is_next = IsNext-append (omega arith) next rest.is_next;
    }
