-- ===== src/Itch/Generator/Traffic.antt =====
-- What the generator sends, and what the parser makes of it.
use winter_square.Common.{
  ℕ, ◌+◌, ◌^◌, ◌≤◌, ◌<◌, ◌≡◌, refl, ap, ◌∙◌, List, [], ◌∷◌, ◌++◌, map, some, arith, if◌then◌else◌,
  length, All, Bool-cases, inl, inr,
}
use winter_square.Common.Word.{add_u64}
use winter_square.Core.Types.{NormalizedMessage, MessageView}
use winter_square.Core.Receiver.{is_negative}
use winter_square.Itch.Bytes.{IsByte}
use winter_square.Itch.Parser.{ItchParser, parse}
use winter_square.Itch.Builder.{build_packet}
use winter_square.Itch.Packet.Sent.{Sent, bytes_of}
use winter_square.Itch.Packet.RoundTrip.{fill, parse-sent}
use winter_square.Itch.Generator.{
  Generator, Draw, Round, initial, timestamp_of, make_messages, send_packets,
}
use winter_square.Itch.Generator.Numbers.{IsDrawn, IsCounting, IsNumbered}
use winter_square.Itch.Generator.Made.{
  IsNext-IsCounting, IsNumbered-append, make_messages-Made, none-IsNumbered,
}

-- A packet as messages, and as the bytes that are sent.
abbrev pub packet_of : List Sent → List ℕ
packet_of ms = build_packet (map bytes_of ms)

abbrev pub concat : List (List Sent) → List Sent
concat [] = []
concat (ms ∷ packets) = ms ++ concat packets

-- The rounds before the one in which `sendto` fails.
unfoldable pub accepted : List Round → List Round
accepted [] = []
accepted (r ∷ rounds) = if is_negative r.sent then [] else (r ∷ accepted rounds)

unfoldable pub draws_of : List Round → ℕ
draws_of [] = 0
draws_of (r ∷ rounds) = length r.draws + draws_of rounds

-- The distributions give what they are set up to give.
abbrev pub AreDrawn : List Round → Type 0
AreDrawn rounds = All (λ r. All IsDrawn r.draws) rounds

-- What the loop sent, and how often.
pub record IsSent (g : Generator) (rounds : List Round) : Type 0 where
  pub packets : List (List Sent)
  pub after : Generator
  pub sends : send_packets g rounds ≡ some (map packet_of packets, after)
  pub sizes : map length packets ≡ map (λ r. length r.draws) (accepted rounds)
  pub counted : after.packets_sent ≡ add_u64 g.packets_sent (length packets)
  pub numbered : IsNumbered g (concat packets) (draws_of (accepted rounds))

timestamp-lt : (nanos : ℕ) → timestamp_of nanos < 2 ^ 64
timestamp-lt nanos = omega arith

send_packets-IsSent :
    (g : Generator) (rounds : List Round)
    → IsCounting g
    → g.packets_sent < 2 ^ 64
    → AreDrawn rounds
    → IsSent g rounds
unfolding send_packets accepted draws_of
send_packets-IsSent g [] counting few drawn = record {
  packets = [];
  after = g;
  sends = refl;
  sizes = refl;
  counted = omega arith;
  numbered = none-IsNumbered g;
}
send_packets-IsSent g (r ∷ rounds) counting few (drawn, drawn_all) =
    let m =
      make_messages-Made g (timestamp_of r.nanos) r.draws counting (timestamp-lt r.nanos) drawn in
    let next = record m.after { packets_sent = add_u64 m.after.packets_sent 1 } in
    let counts = IsNext-IsCounting m.is_next in
    let rest =
      send_packets-IsSent next rounds
        (record { sequence = counts.sequence; orders = counts.orders; matches = counts.matches })
        (omega arith) drawn_all in
    elim (Bool-cases (is_negative r.sent)) [
      | inl fails ↦ record {
        packets = [];
        after = m.after;
        sends = rw (m.made, fails) refl;
        sizes = rw fails refl;
        counted = omega (arith, m.is_next.sent_before);
        numbered = rw fails (none-IsNumbered g);
      }
      | inr works ↦ record {
        packets = m.messages ∷ rest.packets;
        after = rest.after;
        sends = rw (m.made, works, rest.sends) refl;
        sizes = rw (works, rest.sizes, m.numbered.count) refl;
        counted = omega (arith, m.is_next.sent_before, rest.counted);
        numbered = rw works (
            IsNumbered-append refl counting m.numbered m.is_next (record {
              count = rest.numbered.count;
              in_range = rest.numbered.in_range;
              trackings = rest.numbered.trackings;
              orders = rest.numbered.orders;
              matched = rest.numbered.matched;
            }));
      }
    ]

-- The loop of the generator, started with its initial state, with random numbers in the ranges of the
-- distributions: it reads `STOCKS` within bounds, and sends a packet for each round before the one
-- in which `sendto` fails, of as many messages as there are draws, and counts the packets (mod
-- 2 ^ 64). The messages' fields are in the range of their types; over all the packets, the
-- messages have the tracking numbers 0, 1, … (mod 2 ^ 16), the orders that add-order and trade
-- messages introduce are numbered 1000000, 1000001, …, and the matches that executions and
-- trades report 1, 2, … (both mod 2 ^ 64).
pub send_packets-sends : (rounds : List Round) → AreDrawn rounds → IsSent initial rounds
send_packets-sends rounds drawn =
    send_packets-IsSent initial rounds
      (record { sequence = omega arith; orders = omega arith; matches = omega arith }) (omega arith)
      drawn

-- A packet at the front of the receive buffer, whose other bytes are `more`.
abbrev pub received : List (List ℕ) → List ℕ → ℕ → ℕ → MessageView
received messages more now sequence = record {
  content = some (build_packet messages ++ more);
  length = length (build_packet messages);
  timestamp = now;
  sequence = sequence;
}

-- The messages that `make_messages` returns, and what the parser does with their packet.
pub record IsTaken (g : Generator) (time : ℕ) (draws : List Draw) (s : ItchParser)
    (output : List NormalizedMessage) (max_messages : ℕ) (more : List ℕ) (now sequence : ℕ)
    : Type 0 where
  pub messages : List Sent
  pub after : Generator
  pub made : make_messages g time draws ≡ some (map bytes_of messages, after)
  pub numbered : IsNumbered g messages (length draws)
  pub taken :
      parse s (received (map bytes_of messages) more now sequence) output max_messages
      ≡ some (
        length draws,
        fill now messages output,
        record s { messages_parsed = add_u64 s.messages_parsed (length draws) },
      )

-- For random numbers in the ranges of the distributions, for one message at least and at most
-- `max_messages`, and from counters that are `uint64_t`s, the generator makes a message of each draw,
-- numbered on from its counters, and the parser takes the packet that is built of them, with other
-- bytes after it in the receive buffer, as exactly these messages and counts no error. `output`
-- must have `max_messages` slots.
pub make_messages-parse :
    (g : Generator) (nanos : ℕ) (draws : List Draw) (s : ItchParser)
    (output : List NormalizedMessage) (max_messages : ℕ) (more : List ℕ) (now sequence : ℕ)
    → IsCounting g
    → All IsDrawn draws
    → 0 < length draws
    → length draws ≤ max_messages
    → max_messages ≤ length output
    → All IsByte more
    → IsTaken g (timestamp_of nanos) draws s output max_messages more now sequence
make_messages-parse g nanos draws s output max_messages more now sequence counting drawn pos fit
      room more_bytes =
    let m = make_messages-Made g (timestamp_of nanos) draws counting (timestamp-lt nanos) drawn in
    record {
      messages = m.messages;
      after = m.after;
      made = m.made;
      numbered = m.numbered;
      taken =
          parse-sent s (received (map bytes_of m.messages) more now sequence) output max_messages
            more m.messages more_bytes m.numbered.in_range (omega (arith, m.numbered.count))
            (omega (arith, m.numbered.count)) room (record { content = refl; whole = refl })
          ∙ ap
              (λ n. some (
                n,
                fill now m.messages output,
                record s { messages_parsed = add_u64 s.messages_parsed n },
              ))
              m.numbered.count;
    }
