-- ===== src/Itch/Generator/Drawn.antt =====
-- The message of one draw.
use winter_square.Common.{
  ℕ, zero, suc, ◌/◌, ◌%◌, ◌^◌, ◌<◌, ◌≡◌, refl, List, [], ◌∷◌, some, arith, if◌then◌else◌, ◌==◌,
  length, get_elem?, All, Bool-cases, inl, inr,
}
use winter_square.Common.Word.{sub_u64}
use winter_square.Itch.Bytes.{IsByte}
use winter_square.Itch.Packet.Sent.{Sent, add_order, executed, traded, bytes_of}
use winter_square.Itch.Generator.{Generator, Draw, stocks, side_char, build_drawn}
use winter_square.Itch.Generator.Numbers.{
  IsDrawn, IsCounting, count_from, new_orders, matches, IsNumbered, IsNext,
}

-- One draw, as a message.
unfoldable pub drawn : Generator → ℕ → Draw → List ℕ → Sent
drawn g time d stock =
    if d.msg_type == 0
    then add_order (d.stock_idx % 2 ^ 16) (g.sequence % 2 ^ 16) time g.order_id_counter
        (side_char d.side) d.shares d.price stock
    else (if d.msg_type == 1
        then executed (d.stock_idx % 2 ^ 16) (g.sequence % 2 ^ 16) time
            (sub_u64 g.order_id_counter 1000) (d.shares / 2) g.match_number_counter
        else traded (d.stock_idx % 2 ^ 16) (g.sequence % 2 ^ 16) time g.order_id_counter
            (side_char d.side) d.shares d.price g.match_number_counter stock)

pub IsStock : List ℕ → Type 0
IsStock stock = All IsByte stock × (length stock ≡ 8)

pub get_elem?-All :
    (P : List ℕ → Type 0) (xs : List (List ℕ)) (i : ℕ)
    → All P xs
    → i < length xs
    → (x : List ℕ) × (get_elem? xs i ≡ some x) × P x
get_elem?-All P [] i h lt = absurd (omega arith)
get_elem?-All P (x ∷ xs) zero h lt = (x, refl, h.0)
get_elem?-All P (x ∷ xs) (suc i) h lt = get_elem?-All P xs i h.1 (omega arith)

pub stocks-IsStock : All IsStock stocks
unfolding IsStock
stocks-IsStock = omega arith

side_char-IsByte : (side : ℕ) → IsByte (side_char side)
side_char-IsByte side = grind arith

module _ (g : Generator) (time : ℕ) (d : Draw) (stock : List ℕ) (is_drawn : IsDrawn d)
    (counting : IsCounting g) (now : time < 2 ^ 64) (is_stock : IsStock stock) where
  pub build_drawn-drawn : (build_drawn g time d stock).0 ≡ bytes_of (drawn g time d stock)
  unfolding build_drawn drawn
  build_drawn-drawn = elim (Bool-cases (d.msg_type == 0)) [
    | inl add ↦ rw add refl
    | inr other ↦ elim (Bool-cases (d.msg_type == 1)) [
      | inl executes ↦ rw (other, executes) refl
      | inr trades ↦ rw (other, trades) refl
    ]
  ]

  pub drawn-IsNumbered :
      IsNumbered g (drawn g time d stock ∷ []) 1
      × IsNext g (build_drawn g time d stock).1 (drawn g time d stock ∷ []) 1
  unfolding build_drawn drawn count_from new_orders matches IsStock
  drawn-IsNumbered = elim (Bool-cases (d.msg_type == 0)) [
    | inl add ↦ rw add (
      record {
        count = refl;
        in_range = (
          (
            omega arith,
            omega arith,
            now,
            counting.orders,
            side_char-IsByte d.side,
            omega arith,
            omega arith,
            is_stock.0,
            is_stock.1,
          ),
          tt,
        );
        trackings = refl;
        orders = refl;
        matched = refl;
      },
      record {
        next_sequence = refl;
        next_order = refl;
        next_match = omega arith;
        sent_before = refl;
      },
    )
    | inr other ↦ elim (Bool-cases (d.msg_type == 1)) [
      | inl executes ↦
          rw (other, executes)
            (
              record {
                count = refl;
                in_range = omega arith;
                trackings = refl;
                orders = refl;
                matched = refl;
              },
              record {
                next_sequence = refl;
                next_order = omega arith;
                next_match = refl;
                sent_before = refl;
              },
            )
      | inr trades ↦
          rw (other, trades)
            (
              record {
                count = refl;
                in_range = (
                  (
                    omega arith,
                    omega arith,
                    now,
                    counting.orders,
                    side_char-IsByte d.side,
                    omega arith,
                    omega arith,
                    counting.matches,
                    is_stock.0,
                    is_stock.1,
                  ),
                  tt,
                );
                trackings = refl;
                orders = refl;
                matched = refl;
              },
              record {
                next_sequence = refl;
                next_order = refl;
                next_match = refl;
                sent_before = refl;
              },
            )
    ]
  ]
