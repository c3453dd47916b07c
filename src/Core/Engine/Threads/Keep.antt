-- ===== src/Core/Engine/Threads/Keep.antt =====
-- The steps of the receiver's thread and those of the engine's thread between two posts keep what
-- holds.
use winter_square.Common.{
  ℕ, suc, ◌+◌, ◌<◌, ◌≡◌, refl, sym, ap, ◌∙◌, true, false, List, ◌++◌, Option, some, arith, ltb,
  length, take, drop, get_elem?, get_elem?-lt, lt→ltb,
}
use winter_square.Core.Types.{NormalizedMessage}
use winter_square.Core.Parser.{Parser}
use winter_square.Core.Subscriber.{Subscriber}
use winter_square.Core.Dispatcher.Mailboxes.{Messages, MessageQueue}
use winter_square.Core.Receiver.{read_packet}
use winter_square.Core.Engine.{CoreEngine}
use winter_square.Core.Engine.Threads.{
  Place, reading, dispatching, posting, Threads, queues, receive, find_none, parse_found,
  count_message, finish_packet,
}
use winter_square.Core.Engine.Threads.Log.{
  asked, pending, take_packet, parse_each-snoc, drop-take_all,
}
use winter_square.Core.Engine.Threads.Holds.{Serves, Holds, untaken}
use winter_square.Core.Engine.Threads.Packets.{
  receive_round-Flows, receive_round-sequence, read_packet-none, read_packet-some,
  read_packet_none-Flows, read_packet-Flows,
}
use mathlib.Core.Option.{some-injective}
use mathlib.Core.List.{append-nil}

not_below_0 : (k : ℕ) → ltb k 0 ≡ false
not_below_0 k = ground arith

module _ {P S : Type 0} (parser_ops : Parser P) (subscriber_ops : Subscriber S)
    (start : CoreEngine P S) (parser : P) (messages : Messages) (s : Threads P S)
    (h : Holds parser_ops subscriber_ops start parser messages s) where
  pub receive-Holds :
      (answer : Option (List ℕ)) (now : ℕ)
      → Holds parser_ops subscriber_ops start parser messages (receive s answer now)
  unfolding receive
  receive-Holds answer now = record {
    placed = h.placed;
    paired = h.paired;
    served = h.served;
    delivered = h.delivered;
    packets = receive_round-Flows s.engine.receiver s.packet answer now h.packets;
    taken =
        let (p, set, all) = h.taken in
        (p, set, rw (receive_round-sequence s.engine.receiver s.packet answer now) all);
  }

  pub find_none-Holds :
      (read_packet s.engine.receiver s.raw_packet).0 ≡ false
      → Holds parser_ops subscriber_ops start parser messages (find_none s)
  unfolding find_none
  find_none-Holds none_read = record {
    placed = h.placed;
    paired = h.paired;
    served = h.served;
    delivered = h.delivered;
    packets = read_packet_none-Flows s.engine.receiver s.raw_packet h.packets none_read;
    taken =
        let (p, set, all) = h.taken in
        (p, set, rw (read_packet-none s.engine.receiver s.raw_packet none_read) all);
  }

  -- The engine's thread moves on, with the same messages left for every queue.
  served_at :
      (place : Place)
      → ((k : ℕ)
          → k < length (queues s)
          → pending s.place s.messages k ≡ pending place s.messages k)
      → (k : ℕ) (q : MessageQueue) → get_elem? (queues s) k ≡ some q
      → Serves q
          (s.history.offered k)
          (s.history.given k)
          (pending place s.messages k)
          s.history.parsed
  served_at place same k q here = rw (← same k (get_elem?-lt (queues s) k here)) (h.served k q here)

  pub dispatches-Holds :
      (parse_start count i now : ℕ)
      → s.place ≡ dispatching parse_start count i
      → i < count
      → Holds parser_ops subscriber_ops start parser messages
          (record s { place = posting parse_start count i now 0 })
  dispatches-Holds parse_start count i now at more = record {
    packets = h.packets;
    taken = h.taken;
    placed = (more, omega arith);
    paired = h.paired;
    served = served_at (posting parse_start count i now 0) (λ k lt. rw (at, not_below_0 k));
    delivered = h.delivered;
  }

  pub finish_packet-Holds :
      (parse_start count parse_end : ℕ)
      → s.place ≡ dispatching parse_start count count
      → Holds parser_ops subscriber_ops start parser messages
          (finish_packet parser_ops subscriber_ops s parse_start count parse_end)
  unfolding finish_packet
  finish_packet-Holds parse_start count parse_end at = record {
    packets = h.packets;
    taken = h.taken;
    placed = tt;
    paired = h.paired;
    served = served_at reading (λ k lt. rw at (drop-take_all count s.messages));
    delivered = h.delivered;
  }

  pub count_message-Holds :
      (parse_start count i now : ℕ) (m : NormalizedMessage)
      → s.place ≡ posting parse_start count i now (length (queues s))
      → Holds parser_ops subscriber_ops start parser messages
          (count_message s parse_start count i now m)
  unfolding count_message
  count_message-Holds parse_start count i now m at =
      let inside : i < count = (rw at at h.placed).0 in
      let step : suc i ≡ i + 1 = omega arith in
      record {
        packets = h.packets;
        taken = h.taken;
        placed = omega arith;
        paired = h.paired;
        served = served_at (dispatching parse_start count (i + 1)) (λ k lt.
            rw (at, lt→ltb k (length (queues s)) lt)
              (ap (λ n. drop n (take count s.messages)) step));
        delivered = h.delivered;
      }

  pub parse_found-Holds :
      (parse_start count : ℕ) (messages' : Messages) (before after : P)
      → s.place ≡ reading
      → (read_packet s.engine.receiver s.raw_packet).0 ≡ true
      → s.engine.parser ≡ some before
      → parser_ops.parse before
          (read_packet s.engine.receiver s.raw_packet).1
          s.messages
          (length s.messages)
        ≡ some (count, messages', after)
      → Holds parser_ops subscriber_ops start parser messages
          (parse_found s parse_start count messages' after)
  unfolding parse_found take_packet
  parse_found-Holds parse_start count messages' before after at got set parsed = record {
    packets = read_packet-Flows s.engine.receiver s.raw_packet h.packets got;
    taken =
        let (p, there, all) = h.taken in
        let same : p ≡ before = some-injective _ _ (sym there ∙ set) in
        let (number, view) = read_packet-some s.engine.receiver s.raw_packet got in
        (
          after,
          refl,
          parse_each-snoc parser_ops s.history.read _ (untaken start parser messages) all
              ∙ rw (same, ← view, parsed, number) refl,
        );
    placed = omega arith;
    paired = h.paired;
    served = λ k q here.
        let old = h.served k q here in
        record {
          flows = old.flows;
          offers =
              ap (λ xs. xs ++ take count messages')
                (sym (append-nil (asked (s.history.offered k)))
                  ∙ ap (λ p. asked (s.history.offered k) ++ pending p s.messages k) (sym at)
                  ∙ old.offers);
        };
    delivered = h.delivered;
  }
