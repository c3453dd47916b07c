-- ===== src/Itch/Loop/Round.antt =====
-- One round of the loop of `parse`, on a buffer that holds what `remaining` promises.
use winter_square.Common.{
  ℕ, zero, suc, ◌+◌, ◌-◌, ◌≤◌, ◌<◌, ◌≡◌, refl, Bool, true, false, List, [], ◌∷◌, some, arith, ltb,
  leb, ◌&&◌, ◌||◌, if◌then◌else◌, length, get_elem?, get_or, set, drop, All, All-drop, length-drop,
}
use winter_square.Core.Types.{NormalizedMessage, blank}
use winter_square.Core.Parser.{write}
use winter_square.Itch.Bytes.{IsByte, big_endian, read_u16_be, read_u16_be-eq}
use winter_square.Itch.Parser.{ItchParser, count_error, Cursor, leave, again, next_message, turn}
use winter_square.Itch.Decode.Message.{read_message, parse_message-read_message}

-- The length that a message announces, with its own two bytes.
abbrev pub announced : List ℕ → ℕ
announced p = big_endian 2 p

abbrev pub wants_more : ℕ → ℕ → ℕ → Bool
wants_more remaining parsed max_messages = leb 3 remaining && ltb parsed max_messages

abbrev pub is_malformed : ℕ → ℕ → Bool
is_malformed msg_length remaining = ltb msg_length 3 || ltb remaining msg_length

abbrev pub slot_at : List NormalizedMessage → ℕ → NormalizedMessage
slot_at output i = get_or output i blank

slot_at-some :
    (output : List NormalizedMessage) (i : ℕ)
    → i < length output
    → get_elem? output i ≡ some (slot_at output i)
slot_at-some [] i h = elim h [ ]
slot_at-some (x ∷ xs) zero h = refl
slot_at-some (x ∷ xs) (suc i) h = slot_at-some xs i (omega arith)

write_within :
    (output : List NormalizedMessage) (i : ℕ) (m : NormalizedMessage)
    → i < length output
    → write output i m ≡ some (set output i m)
unfolding write
write_within output i m h = let e : ltb i (length output) ≡ true = ground arith in rw e

module _ (max_messages now : ℕ) (c : Cursor) where
  open c use {parser, rest, remaining, parsed, output}

  pub turn_stops :
      wants_more remaining parsed max_messages ≡ false → turn max_messages now c ≡ some (leave c)
  unfolding turn
  turn_stops e = rw e

  -- What the next round starts from, after an answer to the message.
  abbrev pub advance : Bool × NormalizedMessage × ItchParser → Cursor
  advance (done, slot, s') = record {
    parser = s';
    rest = drop (announced rest) rest;
    remaining = remaining - announced rest;
    parsed = if done then parsed + 1 else parsed;
    output = set output parsed slot;
  }

  abbrev pub message_answer : Bool × NormalizedMessage × ItchParser
  message_answer =
      read_message parser (drop 2 rest) (announced rest - 2) (slot_at output parsed) now

  module _ (bytes : All IsByte rest) (within : remaining ≤ length rest)
      (more : wants_more remaining parsed max_messages ≡ true) where
    reads : read_u16_be rest ≡ some (announced rest)
    reads = read_u16_be-eq rest bytes (ground arith)

    pub turn_fails :
        is_malformed (announced rest) remaining ≡ true
        → turn max_messages now c ≡ some (leave (record c { parser = count_error parser }))
    unfolding turn next_message
    turn_fails e = rw (more, reads, e)

    pub turn_goes :
        is_malformed (announced rest) remaining ≡ false
        → max_messages ≤ length output
        → turn max_messages now c ≡ some (again (advance message_answer))
    unfolding turn next_message
    turn_goes e room = rw (
      more,
      reads,
      e,
      slot_at-some output parsed (ground arith),
      parse_message-read_message parser (drop 2 rest) (All-drop IsByte 2 rest bytes)
          (announced rest - 2) fits (slot_at output parsed) now,
      write_within output parsed (message_answer).1 (ground arith),
    )
      where
        fits : announced rest - 2 ≤ length (drop 2 rest)
        fits = ground (arith, length-drop 2 rest)
