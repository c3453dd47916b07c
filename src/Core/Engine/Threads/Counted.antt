-- ===== src/Core/Engine/Threads/Counted.antt =====
-- Every step of a running engine's threads counts what it does.
use winter_square.Common.{
  ℕ, ◌+◌, ◌%◌, ◌^◌, ◌<◌, ◌≤◌, ◌≡◌, ◌==◌, true, false, arith, length, length-append, length-take,
  length-set, take, Bool-cases, inl, inr,
}
use winter_square.Core.Types.{NormalizedMessage}
use winter_square.Core.Statistics.{update_latency}
use winter_square.Core.Parser.{Parser}
use winter_square.Core.Subscriber.{Subscriber}
use winter_square.Core.Dispatcher.Mailboxes.{Messages, MessageQueue}
use winter_square.Core.Engine.{CoreEngine, count_packet}
use winter_square.Core.Engine.Threads.{
  reading, dispatching, posting, Threads, queues, receive, find_none, parse_found, post_one,
  count_message, finish_packet, give, pass,
}
use winter_square.Core.Engine.Threads.Log.{accepted, accepted-append}
use winter_square.Core.Engine.Threads.Tally.{
  refused, refused-append, refusals, refusals-snoc, undispatched, in_hand, receive_round-counts,
  read_packet-stats,
}
use winter_square.Queue.Spsc

module _ {P S : Type 0} (e : CoreEngine P S) where
  -- The counters of the receiver, those of the dispatcher, and that of the engine's thread.
  pub record Counted (s : Threads P S) : Type 0 where
    pub received :
        s.engine.receiver.stats.packets_received % 2 ^ 64
        ≡ (e.receiver.stats.packets_received + length (accepted s.history.arrived)) % 2 ^ 64
    pub dropped :
        s.engine.receiver.stats.packets_dropped % 2 ^ 64
        ≡ (e.receiver.stats.packets_dropped + refused s.history.arrived) % 2 ^ 64
    pub dispatched :
        (s.engine.dispatcher.stats.messages_dispatched + undispatched s.place) % 2 ^ 64
        ≡ (e.dispatcher.stats.messages_dispatched + length s.history.parsed) % 2 ^ 64
    pub undelivered :
        s.engine.dispatcher.stats.packets_dropped % 2 ^ 64
        ≡ (e.dispatcher.stats.packets_dropped + refusals (length (queues s)) s.history.offered)
          % 2 ^ 64
    pub parsed :
        (s.engine.stats.messages_parsed + in_hand s.place) % 2 ^ 64
        ≡ (e.stats.messages_parsed + length s.history.parsed) % 2 ^ 64

  module _ {s : Threads P S} (c : Counted s) where
    pub receive-Counted : (answer : _) (now : ℕ) → Counted (receive s answer now)
    unfolding receive
    receive-Counted answer now =
        let (received, dropped) = receive_round-counts s.engine.receiver s.packet answer now in
        record {
          received =
              rw (accepted-append s.history.arrived)
                (omega (arith, received, c.received, length-append (accepted s.history.arrived)));
          dropped = rw (refused-append s.history.arrived) (omega (arith, dropped, c.dropped));
          dispatched = c.dispatched;
          undelivered = c.undelivered;
          parsed = c.parsed;
        }

    pub find_none-Counted : Counted (find_none s)
    unfolding find_none
    find_none-Counted = record {
      received = rw read_packet-stats c.received;
      dropped = rw read_packet-stats c.dropped;
      dispatched = c.dispatched;
      undelivered = c.undelivered;
      parsed = c.parsed;
    }

    pub parse_found-Counted :
        (parse_start count : ℕ) (messages : Messages) (parser : P)
        → s.place ≡ reading
        → count ≤ length messages
        → Counted (parse_found s parse_start count messages parser)
    unfolding parse_found
    parse_found-Counted parse_start count messages parser at fits =
        let all = length-append s.history.parsed (take count messages) in
        let some_of : length (take count messages) ≡ count =
          omega (arith, length-take count messages) in
        record {
          received = rw read_packet-stats c.received;
          dropped = rw read_packet-stats c.dropped;
          dispatched = omega (arith, rw at at c.dispatched, all, some_of);
          undelivered = c.undelivered;
          parsed = omega (arith, rw at at c.parsed, all, some_of);
        }

    pub dispatches-Counted :
        (parse_start count i now : ℕ)
        → s.place ≡ dispatching parse_start count i
        → Counted (record s { place = posting parse_start count i now 0 })
    dispatches-Counted parse_start count i now at = record {
      received = c.received;
      dropped = c.dropped;
      dispatched = rw at at c.dispatched;
      undelivered = c.undelivered;
      parsed = rw at at c.parsed;
    }

    pub post_one-Counted :
        (parse_start count i now j : ℕ) (m : NormalizedMessage) (q : MessageQueue)
        → s.place ≡ posting parse_start count i now j
        → j < length (queues s)
        → Counted (post_one s parse_start count i now j m q)
    unfolding post_one
    post_one-Counted parse_start count i now j m q at inside =
        let more = refusals-snoc s.history.offered j (length (queues s)) m in
        elim (Bool-cases (Spsc.push q m).0) [
          | inl room ↦ rw room (record {
            received = c.received;
            dropped = c.dropped;
            dispatched = rw at at c.dispatched;
            undelivered =
                rw (length-set (queues s) j) (omega (arith, c.undelivered, more true inside));
            parsed = rw at at c.parsed;
          })
          | inr full ↦ rw full (record {
            received = c.received;
            dropped = c.dropped;
            dispatched = rw at at c.dispatched;
            undelivered =
                rw (length-set (queues s) j) (omega (arith, c.undelivered, more false inside));
            parsed = rw at at c.parsed;
          })
        ]

    pub count_message-Counted :
        (parse_start count i now : ℕ) (m : NormalizedMessage)
        → s.place ≡ posting parse_start count i now (length (queues s))
        → i < count
        → Counted (count_message s parse_start count i now m)
    unfolding count_message update_latency
    count_message-Counted parse_start count i now m at inside = record {
      received = c.received;
      dropped = c.dropped;
      dispatched = omega (arith, rw at at c.dispatched);
      undelivered = c.undelivered;
      parsed = rw at at c.parsed;
    }

    module _ (parser_ops : Parser P) (subscriber_ops : Subscriber S) where
      pub finish_packet-Counted :
          (parse_start count parse_end : ℕ)
          → s.place ≡ dispatching parse_start count count
          → Counted (finish_packet parser_ops subscriber_ops s parse_start count parse_end)
      unfolding finish_packet count_packet update_latency
      finish_packet-Counted parse_start count parse_end at = record {
        received = c.received;
        dropped = c.dropped;
        dispatched = omega (arith, rw at at c.dispatched);
        undelivered = c.undelivered;
        parsed = elim (Bool-cases (count == 0)) [
          | inl nothing ↦ rw nothing (omega (arith, rw at at c.parsed))
          | inr something ↦ rw something (omega (arith, rw at at c.parsed))
        ];
      }

      pub give-Counted :
          (subscriber : S) (q : MessageQueue)
          → Counted (give parser_ops subscriber_ops s subscriber q)
      unfolding give
      give-Counted subscriber q = record {
        received = c.received;
        dropped = c.dropped;
        dispatched = c.dispatched;
        undelivered = rw (length-set (queues s) s.turn) c.undelivered;
        parsed = c.parsed;
      }

      pub pass-Counted : (q : MessageQueue) → Counted (pass parser_ops subscriber_ops s q)
      unfolding pass
      pass-Counted q = record {
        received = c.received;
        dropped = c.dropped;
        dispatched = c.dispatched;
        undelivered = rw (length-set (queues s) s.turn) c.undelivered;
        parsed = c.parsed;
      }
