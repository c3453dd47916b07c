-- ===== src/Core/Engine/Threads/Counters.antt =====
-- The counters of a running engine, however its threads interleave.
use winter_square.Common.{
  ℕ, zero, suc, ◌+◌, ◌%◌, ◌^◌, ◌≤◌, ◌≡◌, refl, sym, ◌∙◌, [], some, arith, length, get_elem?-lt,
}
use winter_square.Core.Types.{MessageView, NormalizedMessage}
use winter_square.Core.Parser.{Parser, Parsed, IsParser}
use winter_square.Core.Subscriber.{Subscriber}
use winter_square.Core.Dispatcher.Mailboxes.{Messages}
use winter_square.Core.Receiver.{Packet}
use winter_square.Core.Engine.{CoreEngine, get_stats}
use winter_square.Core.Engine.Round.{IsReadable}
use winter_square.Core.Engine.Threads.{Threads, queues, begin}
use winter_square.Core.Engine.Threads.Steps.{
  Step, receives, finds_none, parses, dispatches, posts, counts, finishes, gives, passes, turns,
  Reach, here, next,
}
use winter_square.Core.Engine.Threads.Log.{accepted}
use winter_square.Core.Engine.Threads.Holds.{IsIdle, Holds}
use winter_square.Core.Engine.Threads.Delivered.{reach-Holds}
use winter_square.Core.Engine.Threads.Sound.{IsSound, current_parsed}
use winter_square.Core.Engine.Threads.Progress.{reach-IsSound}
use winter_square.Core.Engine.Threads.Tally.{refused, refusals, undispatched, in_hand}
use winter_square.Core.Engine.Threads.Counted.{
  Counted, receive-Counted, find_none-Counted, parse_found-Counted, dispatches-Counted,
  post_one-Counted, count_message-Counted, finish_packet-Counted, give-Counted, pass-Counted,
}
use mathlib.Core.Option.{some-injective}
use mathlib.Core.Path.{subst}

refusals-none : (n : ℕ) → refusals {A = NormalizedMessage} n (λ k. []) ≡ 0
refusals-none zero = refl
refusals-none (suc n) = omega (arith, refusals-none n)

module _ {P S : Type 0} (parser_ops : Parser P) (subscriber_ops : Subscriber S)
    (law : IsParser parser_ops) (e : CoreEngine P S) (parser : P) (messages : Messages) where
  Step-Counted :
      {t : _} {s s' : Threads P S}
      → Step parser_ops subscriber_ops t s s'
      → Holds parser_ops subscriber_ops e parser messages s
      → IsSound s
      → Counted e s
      → Counted e s'
  Step-Counted (receives answer now is) h sound c = receive-Counted e c answer now
  Step-Counted (finds_none at none_read) h sound c = find_none-Counted e c
  Step-Counted {s = s} (parses parse_start count messages' before after at got set parsed) h sound
        c =
      let (r, same, fits) =
        current_parsed parser_ops subscriber_ops law s before h.packets sound got in
      let out : r ≡ (count, messages', after) = some-injective _ _ (sym same ∙ parsed) in
      parse_found-Counted e c parse_start count messages' after at
        (subst (λ (o : Parsed P). o.0 ≤ length o.1) out fits)
  Step-Counted (dispatches parse_start count i now at more) h sound c =
      dispatches-Counted e c parse_start count i now at
  Step-Counted {s = s} (posts parse_start count i now j m q at message queue) h sound c =
      post_one-Counted e c parse_start count i now j m q at (get_elem?-lt (queues s) j queue)
  Step-Counted (counts parse_start count i now m at message) h sound c =
      count_message-Counted e c parse_start count i now m at (rw at at h.placed).0
  Step-Counted (finishes parse_start count parse_end at) h sound c =
      finish_packet-Counted e c parser_ops subscriber_ops parse_start count parse_end at
  Step-Counted (gives subscriber q turn queue got) h sound c =
      give-Counted e c parser_ops subscriber_ops subscriber q
  Step-Counted (passes subscriber q turn queue none_left) h sound c =
      pass-Counted e c parser_ops subscriber_ops q
  Step-Counted (turns over) h sound c = record {
    received = c.received;
    dropped = c.dropped;
    dispatched = c.dispatched;
    undelivered = c.undelivered;
    parsed = c.parsed;
  }

  module _ (packet : Packet) (raw_packet : MessageView) (msg : NormalizedMessage)
      (readable : IsReadable packet) (idle : IsIdle e) (set : e.parser ≡ some parser) where
    reach-Counted :
        {s : Threads P S}
        → Reach parser_ops subscriber_ops (begin e packet raw_packet messages msg) s
        → Counted e s
    unfolding begin
    reach-Counted here = record {
      received = omega arith;
      dropped = omega arith;
      dispatched = omega arith;
      undelivered = omega (arith, refusals-none (length e.dispatcher.queues));
      parsed = omega arith;
    }
    reach-Counted (next r step) =
        Step-Counted step
          (reach-Holds parser_ops subscriber_ops e parser messages packet raw_packet msg idle set r)
          (reach-IsSound parser_ops subscriber_ops law e parser messages packet raw_packet msg
            readable idle set r)
          (reach-Counted r)

    -- If an engine starts with a parser that keeps to its contract, with valid queues, one for each
    -- subscriber, with nothing queued and with a readable buffer, then in every state that its three threads
    -- reach `get_stats` answers, modulo 2 ^ 64 and over the counters at the start: the packets that
    -- the receiver's queue took, and those that it refused; the messages parsed, but for those of the packet
    -- in hand until its end; and the messages parsed, but for those whose `dispatch` has not returned. The
    -- dispatcher has counted every push that a subscriber's queue refused, which `get_stats` does not show.
    pub threads_count :
        {s : Threads P S}
        → Reach parser_ops subscriber_ops (begin e packet raw_packet messages msg) s
        → let stats = get_stats parser_ops subscriber_ops s.engine in
          (stats.packets_received % 2 ^ 64
            ≡ (e.receiver.stats.packets_received + length (accepted s.history.arrived)) % 2 ^ 64)
          × (stats.packets_dropped % 2 ^ 64
              ≡ (e.receiver.stats.packets_dropped + refused s.history.arrived) % 2 ^ 64)
          × ((stats.messages_parsed + in_hand s.place) % 2 ^ 64
              ≡ (e.stats.messages_parsed + length s.history.parsed) % 2 ^ 64)
          × ((stats.messages_dispatched + undispatched s.place) % 2 ^ 64
              ≡ (e.dispatcher.stats.messages_dispatched + length s.history.parsed) % 2 ^ 64)
          × (s.engine.dispatcher.stats.packets_dropped % 2 ^ 64
              ≡ (e.dispatcher.stats.packets_dropped
                  + refusals (length (queues s)) s.history.offered)
                % 2 ^ 64)
    unfolding get_stats
    threads_count r =
        let c = reach-Counted r in (c.received, c.dropped, c.parsed, c.dispatched, c.undelivered)
