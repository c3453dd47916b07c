-- ===== src/Itch/Packet/Frames.antt =====
-- `parse` on a packet that `build_packet` made: its messages one after the other.
use winter_square.Common.{
  ℕ, zero, suc, ◌+◌, ◌-◌, ◌/◌, ◌%◌, ◌^◌, ◌≤◌, ◌<◌, ◌≡◌, refl, sym, ap, ap₂, ◌∙◌, ◌⊎◌, false, List,
  [], ◌∷◌, ◌++◌, some, arith, bit_and, ltb, if◌then◌else◌, length, length-append, length-set, set,
  drop, All, All-append, Bool-cases, inl, inr,
}
use winter_square.Common.Bits.{bit_and_ones}
use winter_square.Core.Parser.{Parsed}
use winter_square.Itch.Bytes.{IsByte, big_endian}
use winter_square.Itch.Parser.{ItchParser, Cursor, leave, again, turn, parse_loop}
use winter_square.Itch.Builder.{append_messages, build_packet}
use winter_square.Itch.Decode.Message.{read_message}
use winter_square.Itch.Loop.Round.{
  announced, is_malformed, slot_at, advance, message_answer, turn_stops, turn_goes,
}
use winter_square.Itch.Packet.Local.{read_message-append}
use mathlib.Core.List.{append_assoc, append-nil}

-- A message that a packet can frame.
pub record IsFramed (m : List ℕ) : Type 0 where
  pub some_bytes : 1 ≤ length m
  pub short : length m + 2 < 2 ^ 16
  pub bytes : All IsByte m

pub high : ℕ → ℕ
high n = bit_and (n / 2 ^ 8) 0xff

pub low : ℕ → ℕ
low n = bit_and n 0xff

-- The packet of some messages, first message first.
abbrev pub frames : List (List ℕ) → List ℕ
frames [] = []
frames (m ∷ ms) = high ((length m + 2) % 2 ^ 16) ∷ low ((length m + 2) % 2 ^ 16) ∷ (m ++ frames ms)

append_messages-frames :
    (ms : List (List ℕ)) (packet : List ℕ) → append_messages packet ms ≡ packet ++ frames ms
unfolding append_messages high low
append_messages-frames [] packet = sym (append-nil packet)
append_messages-frames (m ∷ ms) packet =
    append_messages-frames ms _ ∙ append_assoc packet _ (frames ms)

pub build_packet-frames : (ms : List (List ℕ)) → build_packet ms ≡ frames ms
unfolding build_packet
build_packet-frames ms = append_messages-frames ms []

low_byte : (n : ℕ) → bit_and n 0xff ≡ n % 256
low_byte n = bit_and_ones 8 n

announced-frame :
    (m : List ℕ) (q : List ℕ)
    → length m + 2 < 2 ^ 16
    → announced (high ((length m + 2) % 2 ^ 16) ∷ low ((length m + 2) % 2 ^ 16) ∷ q)
      ≡ suc (suc (length m))
unfolding high low big_endian
announced-frame m q h =
    omega (arith, low_byte ((length m + 2) % 2 ^ 16), low_byte ((length m + 2) % 2 ^ 16 / 2 ^ 8))

pub frames-bytes : (ms : List (List ℕ)) → All IsFramed ms → All IsByte (frames ms)
unfolding high low
frames-bytes [] f = tt
frames-bytes (m ∷ ms) (f, fs) = (
  omega (arith, low_byte ((length m + 2) % 2 ^ 16 / 2 ^ 8)),
  (
    omega (arith, low_byte ((length m + 2) % 2 ^ 16)),
    All-append IsByte m (frames ms) f.bytes (frames-bytes ms fs),
  ),
)

drop-length : (m q : List ℕ) → drop (length m) (m ++ q) ≡ q
drop-length [] q = refl
drop-length (x ∷ m) q = drop-length m q

-- Taking one message, and then all of them until `output` is full.
unfoldable pub read_one : ℕ → List ℕ → Parsed ItchParser → Parsed ItchParser
read_one now m (parsed, output, s) =
    let (done, slot, s') = read_message s m (length m) (slot_at output parsed) now in
    ((if done then parsed + 1 else parsed), set output parsed slot, s')

unfoldable pub read_all : ℕ → ℕ → List (List ℕ) → Parsed ItchParser → Parsed ItchParser
unfolding read_one
read_all max_messages now [] r = r
read_all max_messages now (m ∷ ms) r =
    if ltb r.0 max_messages then read_all max_messages now ms (read_one now m r) else r

-- The loop's variables before the messages `ms`, with `more` behind them in the buffer.
abbrev pub before : List (List ℕ) → List ℕ → Parsed ItchParser → Cursor
before ms more (parsed, output, s) = record {
  parser = s;
  rest = frames ms ++ more;
  remaining = length (frames ms);
  parsed = parsed;
  output = output;
}

abbrev pub result : Cursor → Parsed ItchParser
result c = (c.parsed, c.output, c.parser)

module _ (max_messages now : ℕ) (more : List ℕ) (more_bytes : All IsByte more) where
  module _ (m : List ℕ) (ms : List (List ℕ)) (r : Parsed ItchParser) (f : IsFramed m) where
    abbrev here : Cursor
    here = before (m ∷ ms) more r

    at_message : announced here.rest ≡ suc (suc (length m))
    at_message = announced-frame m ((m ++ frames ms) ++ more) f.short

    answers :
        message_answer max_messages now here ≡ read_message r.2 m (length m) (slot_at r.1 r.0) now
    answers =
        ap (λ n. read_message r.2 ((m ++ frames ms) ++ more) n (slot_at r.1 r.0) now)
          (omega (arith, at_message))
        ∙ ap (λ p. read_message r.2 p (length m) (slot_at r.1 r.0) now)
            (append_assoc m (frames ms) more)
        ∙ read_message-append m (frames ms ++ more) r.2 (slot_at r.1 r.0) now

    rest_after : drop (announced here.rest) here.rest ≡ frames ms ++ more
    rest_after =
        ap (λ n. drop n here.rest) at_message
        ∙ ap (drop (length m)) (append_assoc m (frames ms) more)
        ∙ drop-length m (frames ms ++ more)

    remaining_after : length (frames (m ∷ ms)) - announced here.rest ≡ length (frames ms)
    remaining_after = omega (arith, at_message, length-append m (frames ms))

    advance-before :
        advance max_messages now here (message_answer max_messages now here)
        ≡ before ms more (read_one now m r)
    unfolding read_one
    advance-before =
        ap (advance max_messages now here) answers
        ∙ ap₂
            (λ rest remaining. record (before ms more (read_one now m r)) {
              rest = rest;
              remaining = remaining;
            })
            rest_after remaining_after

    fits : (2 < length (frames (m ∷ ms))) × (suc (suc (length m)) ≤ length (frames (m ∷ ms)))
    fits = omega (arith, length-append m (frames ms), f.some_bytes)

    sound : is_malformed (announced here.rest) here.remaining ≡ false
    sound = ground (arith, at_message, fits, f.some_bytes)

    turn_takes :
        All IsFramed ms
        → r.0 < max_messages
        → max_messages ≤ length r.1
        → turn max_messages now here ≡ some (again (before ms more (read_one now m r)))
    turn_takes fs lt room =
        turn_goes max_messages now here
          (All-append IsByte (frames (m ∷ ms)) more (frames-bytes (m ∷ ms) (f, fs)) more_bytes)
          (omega (arith, length-append (frames (m ∷ ms)) more)) (ground (arith, fits)) sound room
        ∙ ap (λ c. some (again c)) advance-before

  turn_stopped :
      (ms : List (List ℕ)) (r : Parsed ItchParser)
      → (max_messages ≤ r.0) ⊎ (ms ≡ [])
      → turn max_messages now (before ms more r) ≡ some (leave (before ms more r))
  turn_stopped ms r (inl full) = turn_stops max_messages now _ (ground arith)
  turn_stopped ms r (inr end) =
      turn_stops max_messages now _ (ground (arith, ap (λ l. length (frames l)) end))

  read_one-room :
      (m : List ℕ) (r : Parsed ItchParser)
      → max_messages ≤ length r.1
      → max_messages ≤ length (read_one now m r).1
  unfolding read_one
  read_one-room m r h =
      omega (arith, length-set r.1 r.0 (read_message r.2 m (length m) (slot_at r.1 r.0) now).1)

  -- The loop ends with the messages taken, in order.
  pub parse_loop-read_all :
      (ms : List (List ℕ)) (fuel : ℕ) (r : Parsed ItchParser)
      → All IsFramed ms
      → max_messages ≤ length r.1
      → length (frames ms) < fuel
      → (c : Cursor) × (parse_loop fuel max_messages now (before ms more r) ≡ some c)
        × (result c ≡ read_all max_messages now ms r)
  unfolding parse_loop read_all
  parse_loop-read_all ms zero r fs room enough = absurd (omega arith)
  parse_loop-read_all [] (suc fuel) r fs room enough =
      (before [] more r, rw (turn_stopped [] r (inr refl)), refl)
  parse_loop-read_all (m ∷ ms) (suc fuel) r (f, fs) room enough =
      elim (Bool-cases (ltb r.0 max_messages)) [
        | inr full ↦
            (before (m ∷ ms) more r, rw (turn_stopped (m ∷ ms) r (inl (ground arith))), rw full)
        | inl lt ↦
            let (c, e, done) =
              parse_loop-read_all ms fuel (read_one now m r) fs (read_one-room m r room)
                (omega (arith, length-append m (frames ms))) in
            (c, rw (turn_takes m ms r f fs (ground arith) room) e, rw lt done)
      ]
