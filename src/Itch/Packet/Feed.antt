-- ===== src/Itch/Packet/Feed.antt =====
-- From a datagram of `build_packet` to the mailboxes of the subscribers: one round of the engine.
use winter_square.Common.{
  ℕ, zero, suc, ◌+◌, ◌%◌, ◌^◌, ◌≤◌, ◌<◌, ◌≡◌, refl, sym, ap, ◌∙◌, List, [], ◌∷◌, ◌++◌, some, arith,
  length, take, map, length-append, All, All-append,
}
use winter_square.Common.Word.{add_u64}
use mathlib.Core.Option.{some-injective}
use winter_square.Core.Types.{MessageView, NormalizedMessage}
use winter_square.Core.Parser.{Parsed}
use winter_square.Core.Subscriber.{Subscriber}
use winter_square.Core.Dispatcher.Mailboxes.{mailboxes, Ready}
use winter_square.Core.Dispatcher.Order.{HasRoom, append_all, dispatch_each-Queued}
use winter_square.Core.Receiver.{Packet}
use winter_square.Core.Receiver.Views.{view_of}
use winter_square.Core.Engine.{CoreEngine, parse_round}
use winter_square.Core.Engine.Round.{timed, IsReadable, after_packet, parse_round-packet}
use winter_square.Queue.Spsc.Ring.{IsValid}
use winter_square.Queue.Spsc.Refine.{contents}
use winter_square.Itch.Bytes.{IsByte}
use winter_square.Itch.Parser.{ItchParser, itch_parser}
use winter_square.Itch.Contract.{itch_parser-IsParser}
use winter_square.Itch.Builder.{build_packet}
use winter_square.Itch.Packet.Frames.{build_packet-frames, frames-bytes}
use winter_square.Itch.Packet.Sent.{Sent, bytes_of, InRange}
use winter_square.Itch.Packet.RoundTrip.{InRange-IsFramed, fill, parse-sent}

messages-timed :
    (clock : ℕ → ℕ) (i : ℕ) (ms : List NormalizedMessage) → map (λ c. c.1) (timed clock i ms) ≡ ms
unfolding timed
messages-timed clock i [] = refl
messages-timed clock i (m ∷ ms) = ap (λ r. m ∷ r) (messages-timed clock (i + 1) ms)

length-timed :
    (clock : ℕ → ℕ) (i : ℕ) (ms : List NormalizedMessage) → length (timed clock i ms) ≡ length ms
unfolding timed
length-timed clock i [] = refl
length-timed clock i (m ∷ ms) = ap suc (length-timed clock (i + 1) ms)

length-take_le : (n : ℕ) (xs : List NormalizedMessage) → length (take n xs) ≤ n
length-take_le zero xs = omega arith
length-take_le (suc n) [] = omega arith
length-take_le (suc n) (x ∷ xs) = omega (arith, length-take_le n xs)

-- A packet of the generator, as the receiver queued it: other bytes of the buffer lie behind it.
pub record Holds (p : Packet) (ms : List Sent) (more : List ℕ) : Type 0 where
  pub content : p.content ≡ build_packet (map bytes_of ms) ++ more
  pub whole : p.length ≡ length (build_packet (map bytes_of ms))
  pub in_range : All InRange ms
  pub more_bytes : All IsByte more

Holds-IsReadable : {p : Packet} {ms : List Sent} {more : List ℕ} → Holds p ms more → IsReadable p
Holds-IsReadable {p} {ms} {more} h = record {
  bytes =
      rw (h.content, build_packet-frames (map bytes_of ms))
        (All-append IsByte _ more (frames-bytes (map bytes_of ms) (InRange-IsFramed ms h.in_range))
          h.more_bytes);
  within =
      omega
        (arith, h.whole, ap length h.content, length-append (build_packet (map bytes_of ms)) more);
}

-- The messages that the parser makes of `ms`, over the slots of the engine's array.
abbrev pub heard : ℕ → List Sent → List NormalizedMessage → List NormalizedMessage
heard now ms slots = take (length ms) (fill now ms slots)

HasRoom-le :
    {S : Type 0} (cap k j : ℕ) (boxes : List (S × List NormalizedMessage))
    → j ≤ k
    → HasRoom cap k boxes
    → HasRoom cap j boxes
HasRoom-le cap k j [] le h = tt
HasRoom-le cap k j ((s, waiting) ∷ boxes) le h = (omega arith, HasRoom-le cap k j boxes le h.1)

module _ {S : Type 0} (ops : Subscriber S) (e : CoreEngine ItchParser S) (raw_packet : MessageView)
    (slots : List NormalizedMessage) (parse_start parse_end : ℕ) (clock : ℕ → ℕ) where
  -- If the packet at the front of a valid receiver queue is one that the generator built of messages
  -- in range, one at least and no more than the engine's array has slots, the parser is that for
  -- ITCH, and every subscriber's queue is valid and has room for them, then a round of the engine returns and leaves in every mailbox what
  -- was there and then these messages, in order; no packet counts as dropped by the dispatcher, and
  -- the engine counts the messages as parsed.
  pub parse_round-sent :
      (cap : ℕ) (s : ItchParser) (p : Packet) (ps : List Packet) (ms : List Sent) (more : List ℕ)
      → IsValid e.receiver.packet_queue
      → e.parser ≡ some s
      → contents e.receiver.packet_queue ≡ p ∷ ps
      → Holds p ms more
      → 0 < length ms
      → length ms ≤ length slots
      → Ready cap e.dispatcher.subscribers e.dispatcher.queues
      → HasRoom cap (length ms) (mailboxes e.dispatcher.subscribers e.dispatcher.queues)
      → (e' : CoreEngine ItchParser S) × (parse_round itch_parser ops e raw_packet slots parse_start
            parse_end clock
          ≡ some (e', view_of e.receiver.sequence p, fill p.timestamp ms slots))
        × Ready cap e'.dispatcher.subscribers e'.dispatcher.queues
        × (mailboxes e'.dispatcher.subscribers e'.dispatcher.queues
            ≡ append_all
                (heard p.timestamp ms slots)
                (mailboxes e.dispatcher.subscribers e.dispatcher.queues))
        × (e'.dispatcher.stats.packets_dropped % 2 ^ 64
            ≡ e.dispatcher.stats.packets_dropped % 2 ^ 64)
        × (e'.stats.messages_parsed ≡ add_u64 e.stats.messages_parsed (length ms))
  parse_round-sent cap s p ps ms more valid set queued holds pos fit ready room =
      let now = p.timestamp in
      let result : Parsed ItchParser = (
        length ms,
        fill now ms slots,
        record s { messages_parsed = add_u64 s.messages_parsed (length ms) },
      ) in
      let (r, parsed, round, rest, numbered) =
        parse_round-packet itch_parser ops e raw_packet slots parse_start parse_end clock valid p ps
          s itch_parser-IsParser queued (Holds-IsReadable holds) set in
      let sent =
        parse-sent s (view_of e.receiver.sequence p) slots (length slots) more ms holds.more_bytes
          holds.in_range pos fit (omega arith)
          (record { content = ap some holds.content; whole = holds.whole }) in
      let same : r ≡ result = some-injective r result (sym parsed ∙ sent) in
      let calls = timed clock 0 (heard now ms slots) in
      let boxes = mailboxes e.dispatcher.subscribers e.dispatcher.queues in
      let few : length calls ≤ length ms = omega (
        arith,
        length-timed clock 0 (heard now ms slots),
        length-take_le (length ms) (fill now ms slots),
      ) in
      let q =
        dispatch_each-Queued ops cap calls e.dispatcher ready (HasRoom-le cap _ _ boxes few room) in
      (
        after_packet itch_parser ops e raw_packet slots parse_start parse_end clock valid result,
        round
            ∙ ap
                (λ t. some (
                  after_packet itch_parser ops e raw_packet slots parse_start parse_end clock valid
                      t,
                  view_of e.receiver.sequence p,
                  t.1,
                ))
                same,
        q.ready,
        q.boxes ∙ ap (λ m. append_all m boxes) (messages-timed clock 0 (heard now ms slots)),
        q.kept,
        refl,
      )
