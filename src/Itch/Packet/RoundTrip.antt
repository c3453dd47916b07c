-- ===== src/Itch/Packet/RoundTrip.antt =====
-- `parse` after `build_packet`.
use winter_square.Common.{
  ℕ, suc, ◌+◌, ◌≤◌, ◌<◌, ◌≡◌, refl, ap, ap₂, ◌∙◌, false, not, List, [], ◌∷◌, ◌++◌, some, arith,
  ◌==◌, ◌||◌, length, length-append, length-map, lt→ltb, map, set, All,
}
use winter_square.Common.Word.{add_u64}
use winter_square.Core.Types.{NormalizedMessage, MessageView, is_valid}
use winter_square.Core.Parser.{Parsed}
use winter_square.Itch.Bytes.{IsByte}
use winter_square.Itch.Parser.{ItchParser, parse_from, parse}
use winter_square.Itch.Builder.{build_packet}
use winter_square.Itch.Loop.Safety.{parse_valid}
use winter_square.Itch.Loop.Round.{slot_at}
use winter_square.Itch.Packet.Frames.{
  IsFramed, frames, build_packet-frames, read_one, read_all, parse_loop-read_all,
}
use winter_square.Itch.Packet.Sent.{Sent, bytes_of, InRange, expected}
use winter_square.Itch.Packet.Built.{read_message-bytes_of, bytes_of-IsFramed}
use mathlib.Core.List.{append_assoc}
use native.Mathlib.Nat.{zero-add}

-- `parse` adds what it took to its counter.
abbrev pub counted : Parsed ItchParser → Parsed ItchParser
counted (n, output, s) = (n, output, record s { messages_parsed = add_u64 s.messages_parsed n })

-- The packet lies at the front of the receive buffer, whose other bytes are `more`.
pub record Carries (view : MessageView) (ms : List (List ℕ)) (more : List ℕ) : Type 0 where
  pub content : view.content ≡ some (build_packet ms ++ more)
  pub whole : view.length ≡ length (build_packet ms)

is_valid_view :
    (view : MessageView) (max_messages : ℕ) {p : List ℕ}
    → view.content ≡ some p
    → 0 < view.length
    → 0 < max_messages
    → (not (is_valid view) || max_messages == 0) ≡ false
unfolding is_valid
is_valid_view view max_messages content pos limit = ground arith

module _ (s : ItchParser) (view : MessageView) (output : List NormalizedMessage) (max_messages : ℕ)
    (more : List ℕ) (more_bytes : All IsByte more) (room : max_messages ≤ length output) where
  from_frames :
      (ms : List (List ℕ))
      → All IsFramed ms
      → view.length ≡ length (frames ms)
      → parse_from s (frames ms ++ more) view output max_messages
        ≡ some (counted (read_all max_messages view.timestamp ms (0, output, s)))
  unfolding parse_from
  from_frames ms fs e =
      let (c, done, r) =
        parse_loop-read_all max_messages view.timestamp more more_bytes ms
          (suc (length (frames ms))) (0, output, s) fs room (omega arith) in
      rw (e, done) (ap (λ x. some (counted x)) r)

  -- A packet built from any framed messages (one byte at least, and less than 2 ^ 16 with the two of
  -- the length), known or unknown, long enough for their type or not, is parsed by reading them in
  -- order until `max_messages` are taken. There must be a message, `max_messages` must not be 0,
  -- and `output` must have that many slots.
  pub parse-build_packet :
      (ms : List (List ℕ))
      → All IsFramed ms
      → 0 < length ms
      → 0 < max_messages
      → Carries view ms more
      → parse s view output max_messages
        ≡ some (counted (read_all max_messages view.timestamp ms (0, output, s)))
  parse-build_packet [] fs pos limit carries = elim pos [ ]
  parse-build_packet (m ∷ ms) fs pos limit carries =
      parse_valid s view (build_packet (m ∷ ms) ++ more) output max_messages carries.content valid
      ∙ ap (λ p. parse_from s (p ++ more) view output max_messages) (build_packet-frames (m ∷ ms))
      ∙ from_frames (m ∷ ms) fs (carries.whole ∙ ap length (build_packet-frames (m ∷ ms)))
    where
      nonempty : 0 < view.length
      nonempty = omega (arith, carries.whole, ap length (build_packet-frames (m ∷ ms)))

      valid : (not (is_valid view) || max_messages == 0) ≡ false
      valid = is_valid_view view max_messages carries.content nonempty limit

-- The slots that the messages go to.
unfoldable pub fill : ℕ → List Sent → List NormalizedMessage → List NormalizedMessage
fill now [] output = output
fill now (m ∷ ms) [] = []
fill now (m ∷ ms) (slot ∷ output) = expected m slot now ∷ fill now ms output

at_end :
    (done : List NormalizedMessage) (slot : NormalizedMessage) (output : List NormalizedMessage)
    → slot_at (done ++ slot ∷ output) (length done) ≡ slot
at_end [] slot output = refl
at_end (x ∷ done) slot output = at_end done slot output

set-at_end :
    (done : List NormalizedMessage) (slot v : NormalizedMessage) (output : List NormalizedMessage)
    → set (done ++ slot ∷ output) (length done) v ≡ (done ++ v ∷ []) ++ output
set-at_end [] slot v output = refl
set-at_end (x ∷ done) slot v output = ap (λ r. x ∷ r) (set-at_end done slot v output)

pub InRange-IsFramed : (ms : List Sent) → All InRange ms → All IsFramed (map bytes_of ms)
InRange-IsFramed [] h = tt
InRange-IsFramed (m ∷ ms) h = (bytes_of-IsFramed m h.0, InRange-IsFramed ms h.1)

read_one-bytes_of :
    (now : ℕ) (m : Sent) (s : ItchParser) (done : List NormalizedMessage) (slot : NormalizedMessage)
    (output : List NormalizedMessage)
    → InRange m
    → read_one now (bytes_of m) (length done, done ++ slot ∷ output, s)
      ≡ (length (done ++ expected m slot now ∷ []), (done ++ expected m slot now ∷ []) ++ output, s)
unfolding read_one
read_one-bytes_of now m s done slot output h = rw (
  at_end done slot output,
  read_message-bytes_of m s slot now h,
  set-at_end done slot (expected m slot now) output,
  length-append done (expected m slot now ∷ []),
)

read_all-bytes_of :
    (max_messages now : ℕ) (ms : List Sent) (s : ItchParser) (done output : List NormalizedMessage)
    → All InRange ms
    → length done + length ms ≤ max_messages
    → length ms ≤ length output
    → read_all max_messages now (map bytes_of ms) (length done, done ++ output, s)
      ≡ (length done + length ms, done ++ fill now ms output, s)
unfolding read_all fill
read_all-bytes_of max_messages now [] s done output h fit room =
    ap (λ n. (n, done ++ output, s)) (omega arith)
read_all-bytes_of max_messages now (m ∷ ms) s done [] h fit room = absurd (omega arith)
read_all-bytes_of max_messages now (m ∷ ms) s done (slot ∷ output) (hm, hs) fit room =
    rw
      (
        lt→ltb (length done) max_messages (omega arith),
        read_one-bytes_of now m s done slot output hm,
      )
      (read_all-bytes_of max_messages now ms s (done ++ expected m slot now ∷ []) output hs
          (omega (arith, length-append done (expected m slot now ∷ []))) (omega arith)
        ∙ ap₂ (λ n out. (n, out, s)) (omega (arith, length-append done (expected m slot now ∷ [])))
            (append_assoc done (expected m slot now ∷ []) (fill now ms output)))

-- A packet that the generator builds of add-order, execution and trade messages with arguments in
-- range, one at least and no more than `max_messages`, is parsed into exactly these messages: slot
-- `i` of `output` holds the arguments of message `i` (an execution leaves the price and the side
-- that its slot held before), the other slots are unchanged, and the parser counts the messages and
-- no error. `output` must have `max_messages` slots; other bytes may follow the packet in the buffer.
pub parse-sent :
    (s : ItchParser) (view : MessageView) (output : List NormalizedMessage) (max_messages : ℕ)
    (more : List ℕ) (ms : List Sent)
    → All IsByte more
    → All InRange ms
    → 0 < length ms
    → length ms ≤ max_messages
    → max_messages ≤ length output
    → Carries view (map bytes_of ms) more
    → parse s view output max_messages
      ≡ some (
        length ms,
        fill view.timestamp ms output,
        record s { messages_parsed = add_u64 s.messages_parsed (length ms) },
      )
parse-sent s view output max_messages more ms more_bytes h pos fit room carries =
    parse-build_packet s view output max_messages more more_bytes room (map bytes_of ms)
      (InRange-IsFramed ms h) (rw (length-map ms bytes_of) pos) (omega arith) carries
    ∙ ap (λ r. some (counted r))
        (read_all-bytes_of max_messages view.timestamp ms s [] output h (omega arith) (omega arith))
    ∙ ap (λ n. some (counted (n, fill view.timestamp ms output, s))) (zero-add (length ms))
