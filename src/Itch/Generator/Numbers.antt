-- ===== src/Itch/Generator/Numbers.antt =====
-- What the generator puts into its messages.
use winter_square.Common.{ℕ, zero, suc, ◌%◌, ◌^◌, ◌≤◌, ◌<◌, ◌≡◌, List, [], ◌∷◌, map, length, All}
use winter_square.Common.Word.{add_u64}
use winter_square.Itch.Packet.Sent.{Sent, add_order, executed, traded, InRange}
use winter_square.Itch.Generator.{Generator, Draw}

-- What the distributions are set up to give.
pub record IsDrawn (d : Draw) : Type 0 where
  pub in_stocks : d.stock_idx < 10
  pub side : d.side < 2
  pub shares : (100 ≤ d.shares) × (d.shares ≤ 10000)
  pub price : (500000 ≤ d.price) × (d.price ≤ 5000000)
  pub msg_type : d.msg_type < 3

-- The counters fit their type.
pub record IsCounting (g : Generator) : Type 0 where
  pub sequence : g.sequence < 2 ^ 64
  pub orders : g.order_id_counter < 2 ^ 64
  pub matches : g.match_number_counter < 2 ^ 64

-- `n` numbers of a `uint64_t` counter.
unfoldable pub count_from : ℕ → ℕ → List ℕ
count_from start zero = []
count_from start (suc n) = start ∷ count_from (add_u64 start 1) n

abbrev pub tracking_of : Sent → ℕ
tracking_of (add_order locate tracking time order side shares price stock) = tracking
tracking_of (executed locate tracking time order shares match_number) = tracking
tracking_of (traded locate tracking time order side shares price match_number stock) = tracking

-- The numbers of the orders that the messages introduce, and of the matches that they report.
unfoldable pub new_orders : List Sent → List ℕ
new_orders [] = []
new_orders (add_order locate tracking time order side shares price stock ∷ ms) =
    order ∷ new_orders ms
new_orders (executed locate tracking time order shares match_number ∷ ms) = new_orders ms
new_orders (traded locate tracking time order side shares price match_number stock ∷ ms) =
    order ∷ new_orders ms

unfoldable pub matches : List Sent → List ℕ
matches [] = []
matches (add_order locate tracking time order side shares price stock ∷ ms) = matches ms
matches (executed locate tracking time order shares match_number ∷ ms) = match_number ∷ matches ms
matches (traded locate tracking time order side shares price match_number stock ∷ ms) =
    match_number ∷ matches ms

-- `n` messages in range whose trackings, new orders and matches count on from `g`.
pub record IsNumbered (g : Generator) (ms : List Sent) (n : ℕ) : Type 0 where
  pub count : length ms ≡ n
  pub in_range : All InRange ms
  pub trackings : map tracking_of ms ≡ map (λ k. k % 2 ^ 16) (count_from g.sequence n)
  pub orders : new_orders ms ≡ count_from g.order_id_counter (length (new_orders ms))
  pub matched : matches ms ≡ count_from g.match_number_counter (length (matches ms))

-- The state after such messages.
pub record IsNext (g g' : Generator) (ms : List Sent) (n : ℕ) : Type 0 where
  pub next_sequence : g'.sequence ≡ add_u64 g.sequence n
  pub next_order : g'.order_id_counter ≡ add_u64 g.order_id_counter (length (new_orders ms))
  pub next_match : g'.match_number_counter ≡ add_u64 g.match_number_counter (length (matches ms))
  pub sent_before : g'.packets_sent ≡ g.packets_sent
