-- ===== src/Itch/Generator.antt =====
-- The loop of `main` in examples/itch_generator.cpp. What the random distributions and the clock give
-- and what `sendto` returns are arguments; the settings, the output and the pauses are left out.
pub mod Numbers
pub mod Drawn
pub mod Made
pub mod Traffic
use winter_square.Common.{
  ℕ, ◌*◌, ◌/◌, ◌%◌, ◌^◌, List, [], ◌∷◌, Option, none, some, if◌then◌else◌, ◌==◌, get_elem?, ◌>>=◌,
}
use winter_square.Common.Word.{add_u64, sub_u64}
use winter_square.Common.Int.{ℤ}
use winter_square.Core.Receiver.{is_negative}
use winter_square.Itch.Builder.{build_add_order, build_order_executed, build_trade, build_packet}

-- `STOCKS`, each without the zero that ends it: `build_…` copies 8 characters.
abbrev pub stocks : List (List ℕ)
stocks =
    (b'A' ∷ b'A' ∷ b'P' ∷ b'L' ∷ b' ' ∷ b' ' ∷ b' ' ∷ b' ' ∷ [])
    ∷ (b'M' ∷ b'S' ∷ b'F' ∷ b'T' ∷ b' ' ∷ b' ' ∷ b' ' ∷ b' ' ∷ [])
    ∷ (b'G' ∷ b'O' ∷ b'O' ∷ b'G' ∷ b'L' ∷ b' ' ∷ b' ' ∷ b' ' ∷ [])
    ∷ (b'A' ∷ b'M' ∷ b'Z' ∷ b'N' ∷ b' ' ∷ b' ' ∷ b' ' ∷ b' ' ∷ [])
    ∷ (b'T' ∷ b'S' ∷ b'L' ∷ b'A' ∷ b' ' ∷ b' ' ∷ b' ' ∷ b' ' ∷ [])
    ∷ (b'N' ∷ b'V' ∷ b'D' ∷ b'A' ∷ b' ' ∷ b' ' ∷ b' ' ∷ b' ' ∷ [])
    ∷ (b'M' ∷ b'E' ∷ b'T' ∷ b'A' ∷ b' ' ∷ b' ' ∷ b' ' ∷ b' ' ∷ [])
    ∷ (b'N' ∷ b'F' ∷ b'L' ∷ b'X' ∷ b' ' ∷ b' ' ∷ b' ' ∷ b' ' ∷ [])
    ∷ (b'A' ∷ b'M' ∷ b'D' ∷ b' ' ∷ b' ' ∷ b' ' ∷ b' ' ∷ b' ' ∷ [])
    ∷ (b'I' ∷ b'N' ∷ b'T' ∷ b'C' ∷ b' ' ∷ b' ' ∷ b' ' ∷ b' ' ∷ [])
    ∷ []

-- The local state of `main`, of `uint64_t`s.
pub record Generator : Type 0 where
  pub sequence : ℕ
  pub order_id_counter : ℕ
  pub match_number_counter : ℕ
  pub packets_sent : ℕ

abbrev pub initial : Generator
initial = record {
  sequence = 0;
  order_id_counter = 1000000;
  match_number_counter = 1;
  packets_sent = 0;
}

-- What the distributions give for a message: `side` is that of `side_dist`, `msg_type` 0 for an
-- add-order message, 1 for an execution, and else a trade.
pub record Draw : Type 0 where
  pub stock_idx : ℕ
  pub side : ℕ
  pub shares : ℕ
  pub price : ℕ
  pub msg_type : ℕ

abbrev pub side_char : ℕ → ℕ
side_char side = if side == 0 then b'S' else b'B'

-- The body of the loop over messages, after `stock` is read.
unfoldable pub build_drawn : Generator → ℕ → Draw → List ℕ → List ℕ × Generator
build_drawn g timestamp d stock =
    if d.msg_type == 0
    then (
      build_add_order (d.stock_idx % 2 ^ 16) (g.sequence % 2 ^ 16) timestamp g.order_id_counter
          (side_char d.side) d.shares stock d.price,
      record g { sequence = add_u64 g.sequence 1; order_id_counter = add_u64 g.order_id_counter 1 },
    )
    else (if d.msg_type == 1
        then (
          build_order_executed (d.stock_idx % 2 ^ 16) (g.sequence % 2 ^ 16) timestamp
              (sub_u64 g.order_id_counter 1000) (d.shares / 2) g.match_number_counter,
          record g {
            sequence = add_u64 g.sequence 1;
            match_number_counter = add_u64 g.match_number_counter 1;
          },
        )
        else (
          build_trade (d.stock_idx % 2 ^ 16) (g.sequence % 2 ^ 16) timestamp g.order_id_counter
              (side_char d.side) d.shares stock d.price g.match_number_counter,
          record g {
            sequence = add_u64 g.sequence 1;
            order_id_counter = add_u64 g.order_id_counter 1;
            match_number_counter = add_u64 g.match_number_counter 1;
          },
        ))

-- The message of one draw; `none` is an index outside `STOCKS`.
unfoldable pub make_message : Generator → ℕ → Draw → Option (List ℕ × Generator)
unfolding build_drawn
make_message g timestamp d = do
  stock ← get_elem? stocks d.stock_idx
  some (build_drawn g timestamp d stock)

-- The messages of a packet: one for each of the `msgs_per_packet` draws.
unfoldable pub make_messages : Generator → ℕ → List Draw → Option (List (List ℕ) × Generator)
unfolding make_message
make_messages g timestamp [] = some ([], g)
make_messages g timestamp (d ∷ draws) = do
  (msg, g') ← make_message g timestamp d
  (messages, g'') ← make_messages g' timestamp draws
  some (msg ∷ messages, g'')

-- A round of the loop: the nanoseconds of the clock, the draws, and the answer of `sendto`.
pub record Round : Type 0 where
  pub nanos : ℕ
  pub draws : List Draw
  pub sent : ℤ

-- Nanoseconds since midnight.
abbrev pub timestamp_of : ℕ → ℕ
timestamp_of nanos = nanos % (24 * 60 * 60 * 1000000000)

-- The loop, on its rounds up to one where it breaks: the packets that were sent, and the state.
unfoldable pub send_packets : Generator → List Round → Option (List (List ℕ) × Generator)
unfolding make_messages build_packet
send_packets g [] = some ([], g)
send_packets g (r ∷ rounds) = do
  (messages, g') ← make_messages g (timestamp_of r.nanos) r.draws
  if is_negative r.sent then some ([], g') else do
    (packets, g'') ← send_packets (record g' { packets_sent = add_u64 g'.packets_sent 1 }) rounds
    some (build_packet messages ∷ packets, g'')
