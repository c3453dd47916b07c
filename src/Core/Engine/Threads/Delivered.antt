-- ===== src/Core/Engine/Threads/Delivered.antt =====
-- However the threads of a running engine interleave, what they hand on is neither lost, doubled nor
-- reordered.
use winter_square.Common.{
  ℕ, ◌≡◌, sym, ap, ◌∙◌, true, [], ◌++◌, some, arith, get_elem?, get_elem?-lt, get_elem?-some, All,
}
use winter_square.Core.Types.{MessageView, NormalizedMessage}
use winter_square.Core.Parser.{Parser}
use winter_square.Core.Subscriber.{Subscriber}
use winter_square.Core.Dispatcher.Mailboxes.{Messages, MessageQueue}
use winter_square.Core.Dispatcher.Delivery.{deliver}
use winter_square.Core.Receiver.{Packet}
use winter_square.Core.Engine.{CoreEngine}
use winter_square.Core.Engine.Threads.{reading, Threads, queues, subscribers, begin}
use winter_square.Core.Engine.Threads.Steps.{
  Step, Reach, here, next, receives, finds_none, parses, dispatches, posts, counts, finishes, gives,
  passes, turns,
}
use winter_square.Core.Engine.Threads.Log.{
  accepted, accepted-asked, asked, pending, Taken, parse_each,
}
use winter_square.Core.Engine.Threads.Holds.{IsIdle, Holds, begin-Holds, untaken, taken_by}
use winter_square.Core.Engine.Threads.Keep.{
  receive-Holds, find_none-Holds, dispatches-Holds, finish_packet-Holds, count_message-Holds,
  parse_found-Holds,
}
use winter_square.Core.Engine.Threads.Post.{post_one-Holds}
use winter_square.Core.Engine.Threads.Give.{give-Holds, pass-Holds}
use winter_square.Queue.Spsc.Refine.{contents}
use mathlib.Core.List.{append-nil}

module _ {P S : Type 0} (parser_ops : Parser P) (subscriber_ops : Subscriber S) (e : CoreEngine P S)
    (parser : P) (messages : Messages) where
  abbrev Keeps : Threads P S → Type 0
  Keeps = Holds parser_ops subscriber_ops e parser messages

  Step-Holds :
      {t : _} {s s' : Threads P S} → Step parser_ops subscriber_ops t s s' → Keeps s → Keeps s'
  Step-Holds {s = s} (receives answer now is) h =
      receive-Holds parser_ops subscriber_ops e parser messages s h answer now
  Step-Holds {s = s} (finds_none at none_read) h =
      find_none-Holds parser_ops subscriber_ops e parser messages s h none_read
  Step-Holds {s = s} (parses parse_start count messages' before after at got set parsed) h =
      parse_found-Holds parser_ops subscriber_ops e parser messages s h parse_start count messages'
        before after at got set parsed
  Step-Holds {s = s} (dispatches parse_start count i now at more) h =
      dispatches-Holds parser_ops subscriber_ops e parser messages s h parse_start count i now at
        more
  Step-Holds {s = s} (posts parse_start count i now j m q at message queue) h =
      post_one-Holds parser_ops subscriber_ops e parser messages s h parse_start count i now j m q
        at message queue
  Step-Holds {s = s} (counts parse_start count i now m at message) h =
      count_message-Holds parser_ops subscriber_ops e parser messages s h parse_start count i now m
        at
  Step-Holds {s = s} (finishes parse_start count parse_end at) h =
      finish_packet-Holds parser_ops subscriber_ops e parser messages s h parse_start count
        parse_end at
  Step-Holds {s = s} (gives subscriber q turn queue got) h =
      give-Holds parser_ops subscriber_ops e parser messages s h subscriber q turn queue got
  Step-Holds {s = s} (passes subscriber q turn queue none_left) h =
      pass-Holds parser_ops subscriber_ops e parser messages s h subscriber q turn queue none_left
  Step-Holds (turns over) h = record {
    packets = h.packets;
    taken = h.taken;
    placed = h.placed;
    paired = h.paired;
    served = h.served;
    delivered = h.delivered;
  }

  module _ (packet : Packet) (raw_packet : MessageView) (msg : NormalizedMessage) (idle : IsIdle e)
      (set : e.parser ≡ some parser) where
    pub reach-Holds :
        {s : Threads P S}
        → Reach parser_ops subscriber_ops (begin e packet raw_packet messages msg) s
        → Keeps s
    reach-Holds here =
        begin-Holds parser_ops subscriber_ops e parser messages packet raw_packet msg idle set
    reach-Holds (next r step) = Step-Holds step (reach-Holds r)

    -- With an engine that starts with a parser, with valid queues, one for each subscriber, and with nothing
    -- queued, this holds in every state that its three threads reach, in whatever order they
    -- take their steps. The packets that the receiver's queue took are those read, in order, and then those
    -- still queued. The messages parsed are those of the packets read, parsed one after the
    -- other. Every queue of a subscriber has been offered these messages, in order, but for those
    -- that the packet in hand still has for it; what it took is what was given to the subscriber, in
    -- order, and then what it still holds. The subscriber is in the state in which these messages leave it.
    pub threads_deliver :
        {s : Threads P S}
        → Reach parser_ops subscriber_ops (begin e packet raw_packet messages msg) s
        → (accepted s.history.arrived ≡ s.history.read ++ contents s.engine.receiver.packet_queue)
          × ((now : P) × (s.engine.parser ≡ some now)
              × (parse_each parser_ops (untaken e parser messages) s.history.read
                  ≡ some (taken_by s now)))
          × ((k : ℕ) (q : MessageQueue)
              → get_elem? (queues s) k ≡ some q
              → (asked (s.history.offered k) ++ pending s.place s.messages k ≡ s.history.parsed)
                × (accepted (s.history.offered k) ≡ s.history.given k ++ contents q))
          × ((k : ℕ) (subscriber : S)
              → get_elem? (subscribers s) k ≡ some subscriber
              → (first : S) × (get_elem? e.dispatcher.subscribers k ≡ some first)
                × (subscriber ≡ deliver subscriber_ops first (s.history.given k)))
    threads_deliver r =
        let h = reach-Holds r in
        (
          h.packets.flow,
          h.taken,
          λ k q found. let at = h.served k q found in (at.offers, at.flows.flow),
          h.delivered,
        )

    -- With an engine that starts with a parser, with valid queues, one for each subscriber, and with nothing
    -- queued: in a state that its threads reach in which no push was refused, the engine's thread
    -- is between two packets and nothing is queued, every subscriber has been given every message
    -- of every packet received, in order, parsed one after the other.
    pub threads_deliver_every :
        {s : Threads P S}
        → Reach parser_ops subscriber_ops (begin e packet raw_packet messages msg) s
        → s.place ≡ reading
        → All (λ r. r.1 ≡ true) s.history.arrived
        → contents s.engine.receiver.packet_queue ≡ []
        → ((k : ℕ) (q : MessageQueue)
            → get_elem? (queues s) k ≡ some q
            → All (λ r. r.1 ≡ true) (s.history.offered k) × (contents q ≡ []))
        → (k : ℕ) (subscriber : S) → get_elem? (subscribers s) k ≡ some subscriber
        → (first : S) × (t : Taken P) × (get_elem? e.dispatcher.subscribers k ≡ some first)
          × (parse_each parser_ops (untaken e parser messages) (asked s.history.arrived) ≡ some t)
          × (subscriber ≡ deliver subscriber_ops first t.parsed)
    threads_deliver_every {s} r at taken_all no_packet idle_queues k subscriber found =
        let h = reach-Holds r in
        let (now, set_now, parsed) = h.taken in
        let (first, there, state) = h.delivered k subscriber found in
        let (q, queue) =
          get_elem?-some (queues s) k
            (omega (arith, h.paired, get_elem?-lt (subscribers s) k found)) in
        let (posted, empty) = idle_queues k q queue in
        let at_k = h.served k q queue in
        let offers : asked (s.history.offered k) ≡ s.history.parsed =
          sym (append-nil (asked (s.history.offered k)))
          ∙ ap (λ p. asked (s.history.offered k) ++ pending p s.messages k) (sym at)
          ∙ at_k.offers in
        let all_given : s.history.given k ≡ s.history.parsed =
          sym (append-nil (s.history.given k))
          ∙ ap (λ xs. s.history.given k ++ xs) (sym empty)
          ∙ sym at_k.flows.flow
          ∙ accepted-asked (s.history.offered k) posted
          ∙ offers in
        let all_read : asked s.history.arrived ≡ s.history.read =
          sym (accepted-asked s.history.arrived taken_all)
          ∙ h.packets.flow
          ∙ ap (λ xs. s.history.read ++ xs) no_packet
          ∙ append-nil s.history.read in
        (
          first,
          taken_by s now,
          there,
          ap (parse_each parser_ops (untaken e parser messages)) all_read ∙ parsed,
          state ∙ ap (deliver subscriber_ops first) all_given,
        )
