-- ===== src/Core/Engine/Round.antt =====
-- A round of `CoreEngine::parse_loop` (core/core_engine.hpp), over any parser that keeps to its contract.
use winter_square.Common.{
  ltb, if◌then◌else◌, min, max, ◌%◌, ◌^◌, ◌≢◌, ==-no, ℕ, zero, suc, ◌+◌, ◌≤◌, ◌<◌, ◌≡◌, refl, ap,
  ◌∙◌, List, [], ◌∷◌, some, arith, length, take, drop, get_elem?, All,
}
use winter_square.Common.Word.{sub_u64, add_u32}
use winter_square.Core.Statistics.{Statistics, update_latency}
use winter_square.Core.Types.{MessageView, NormalizedMessage}
use winter_square.Core.Parser.{Parser, Parsed, IsParser}
use winter_square.Core.Subscriber.{Subscriber}
use winter_square.Core.Dispatcher.{Dispatcher}
use winter_square.Core.Dispatcher.Order.{dispatch_each}
use winter_square.Core.Receiver.{Packet, read_packet}
use winter_square.Core.Receiver.Views.{view_of}
use winter_square.Core.Receiver.Flow.{read_packet-ReadOne, read_empty}
use winter_square.Core.Engine.{CoreEngine, dispatch_first, count_packet, handle_packet, parse_round}
use winter_square.Queue.Spsc.Ring.{IsValid}
use winter_square.Queue.Spsc.Refine.{contents}

-- The calls of `dispatch` for some messages, the first of them at index `i`.
unfoldable pub timed : (ℕ → ℕ) → ℕ → List NormalizedMessage → List (ℕ × NormalizedMessage)
timed clock i [] = []
timed clock i (m ∷ ms) = (clock i, m) ∷ timed clock (i + 1) ms

-- The array of a packet holds as many bytes as its `length` says.
pub record IsReadable (p : Packet) : Type 0 where
  pub bytes : All (λ b. b < 256) p.content
  pub within : p.length ≤ length p.content

at_drop :
    (xs : List NormalizedMessage) (i : ℕ) (m : NormalizedMessage) (rest : List NormalizedMessage)
    → drop i xs ≡ m ∷ rest
    → (get_elem? xs i ≡ some m) × (drop (suc i) xs ≡ rest)
at_drop [] zero m rest e = cc
at_drop [] (suc i) m rest e = cc
at_drop (x ∷ xs) zero m rest e = (cc, cc)
at_drop (x ∷ xs) (suc i) m rest e = at_drop xs i m rest e

least : (a b : ℕ) → (if ltb a b then a else b) ≡ min a b
least a b = ground arith

greatest : (a b : ℕ) → (if ltb a b then b else a) ≡ max a b
greatest a b = ground arith

-- One more parse error for a packet of no messages.
abbrev pub errors_after : ℕ → ℕ → ℕ
errors_after zero errors = (errors + 1) % 2 ^ 64
errors_after (suc n) errors = errors

-- The counters after a packet of so many messages that took so long.
abbrev pub counted : Statistics → ℕ → ℕ → Statistics
counted stats count latency = record stats {
  messages_parsed = (stats.messages_parsed + count) % 2 ^ 64;
  parse_errors = errors_after count stats.parse_errors;
  min_latency_ns = min latency stats.min_latency_ns;
  max_latency_ns = max stats.max_latency_ns latency;
  total_latency_ns = (stats.total_latency_ns + latency) % 2 ^ 64;
}

module _ {P S : Type 0} (parser_ops : Parser P) (subscriber_ops : Subscriber S) where
  dispatch_first-each :
      (clock : ℕ → ℕ) (left i : ℕ) (messages rest : List NormalizedMessage) (d : Dispatcher S)
      → drop i messages ≡ rest
      → left ≤ length rest
      → dispatch_first parser_ops subscriber_ops clock left i messages d
        ≡ some (dispatch_each subscriber_ops d (timed clock i (take left rest)))
  unfolding dispatch_first dispatch_each timed
  dispatch_first-each clock zero i messages rest d e h = refl
  dispatch_first-each clock (suc left) i messages [] d e h = absurd (omega arith)
  dispatch_first-each clock (suc left) i messages (m ∷ rest) d e h =
      let (here, there) = at_drop messages i m rest e in
      let next : i + 1 ≡ suc i = omega arith in
      rw here (
        dispatch_first-each clock left (i + 1) messages rest _
          (ap (λ k. drop k messages) next ∙ there) (omega arith))

  count_packet-counted :
      (stats : Statistics) (count latency : ℕ)
      → count_packet parser_ops subscriber_ops stats count latency ≡ counted stats count latency
  unfolding count_packet update_latency
  count_packet-counted stats zero latency =
      rw (least latency stats.min_latency_ns, greatest stats.max_latency_ns latency) refl
  count_packet-counted stats (suc n) latency =
      rw
        (
          ==-no (no_zero n),
          least latency stats.min_latency_ns,
          greatest stats.max_latency_ns latency,
        )
        refl
    where
      no_zero : (n : ℕ) → suc n ≢ 0
      no_zero n e = omega arith

  module _ (e : CoreEngine P S) (raw_packet : MessageView) (messages : List NormalizedMessage)
      (parse_start parse_end : ℕ) (clock : ℕ → ℕ) (valid : IsValid e.receiver.packet_queue) where
    -- With no packet queued a round changes nothing that another part sees.
    pub parse_round-empty :
        contents e.receiver.packet_queue ≡ []
        → parse_round parser_ops subscriber_ops e raw_packet messages parse_start parse_end clock
          ≡ some (
            record e { receiver = (read_packet e.receiver raw_packet).2 },
            (read_packet e.receiver raw_packet).1,
            messages,
          )
    unfolding parse_round
    parse_round-empty none_left = rw (read_empty e.receiver raw_packet valid none_left) refl

    -- What a round has made of a packet that the parser took as `r`.
    abbrev pub after_packet : Parsed P → CoreEngine P S
    after_packet (count, output, parser) = record e {
      receiver = (read_packet e.receiver raw_packet).2;
      dispatcher = dispatch_each subscriber_ops e.dispatcher (timed clock 0 (take count output));
      parser = some parser;
      stats = counted e.stats count (sub_u64 parse_end parse_start);
    }

    -- If the receiver's queue is valid, its front packet has as many bytes as its length says, and the
    -- engine has a parser that keeps to its contract, then a round returns: it parses this packet
    -- into the array, dispatches the messages that the parser counted, in order, and counts them, or
    -- one error if there are none, and the latency; the packets behind it stay queued, and the
    -- receiver's next number is one more.
    pub parse_round-packet :
        (p : Packet) (ps : List Packet) (parser : P)
        → IsParser parser_ops
        → contents e.receiver.packet_queue ≡ p ∷ ps
        → IsReadable p
        → e.parser ≡ some parser
        → (r : Parsed P) × (parser_ops.parse parser
              (view_of e.receiver.sequence p)
              messages
              (length messages)
            ≡ some r)
          × (parse_round parser_ops subscriber_ops e raw_packet messages parse_start parse_end clock
              ≡ some (after_packet r, view_of e.receiver.sequence p, r.1))
          × (contents (after_packet r).receiver.packet_queue ≡ ps)
          × ((after_packet r).receiver.sequence ≡ add_u32 e.receiver.sequence 1)
    unfolding parse_round handle_packet
    parse_round-packet p ps parser law queued readable set =
        let one = read_packet-ReadOne e.receiver raw_packet p ps valid queued in
        let (r, parsed, few, same) =
          law.safe parser (view_of e.receiver.sequence p) p.content messages (length messages) refl
            readable.bytes readable.within (omega arith) in
        (
          r,
          parsed,
          rw
              (
                one.got,
                one.view,
                set,
                parsed,
                dispatch_first-each clock r.0 0 r.1 r.1 e.dispatcher refl (omega arith),
                count_packet-counted e.stats r.0 (sub_u64 parse_end parse_start),
              )
              refl,
          one.rest,
          one.numbered,
        )
