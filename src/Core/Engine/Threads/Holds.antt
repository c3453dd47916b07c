-- ===== src/Core/Engine/Threads/Holds.antt =====
-- What holds of a running engine's threads between any two steps.
use winter_square.Common.{
  ℕ, ◌<◌, ◌≤◌, ◌≡◌, refl, sym, Bool, List, [], ◌++◌, some, length, get_elem?,
}
use winter_square.Core.Types.{MessageView, NormalizedMessage}
use winter_square.Core.Parser.{Parser}
use winter_square.Core.Subscriber.{Subscriber}
use winter_square.Core.Dispatcher.Mailboxes.{Messages, MessageQueue}
use winter_square.Core.Dispatcher.Delivery.{deliver}
use winter_square.Core.Receiver.{Packet}
use winter_square.Core.Engine.{CoreEngine}
use winter_square.Core.Engine.Threads.{
  Place, reading, dispatching, posting, Threads, queues, subscribers, begin,
}
use winter_square.Core.Engine.Threads.Log.{accepted, asked, pending, Taken, parse_each}
use winter_square.Queue.Spsc.{SpscQueue}
use winter_square.Queue.Spsc.Ring.{IsValid}
use winter_square.Queue.Spsc.Refine.{contents}

-- A queue with what was put into it and what was taken out: nothing is lost, doubled or reordered.
pub record Flows {A : Type 0} (q : SpscQueue A) (put : List (A × Bool)) (taken : List A)
    : Type 0 where
  pub valid : IsValid q
  pub flow : accepted put ≡ taken ++ contents q

-- The queue of a subscriber: every message parsed was offered to it, or is next.
pub record Serves (q : MessageQueue) (offered : List (NormalizedMessage × Bool))
    (given waiting parsed : Messages) : Type 0 where
  pub flows : Flows q offered given
  pub offers : asked offered ++ waiting ≡ parsed

-- The indices are within the loops.
abbrev pub Placed : Place → ℕ → Type 0
Placed reading n = Unit
Placed (dispatching parse_start count i) n = i ≤ count
Placed (posting parse_start count i now j) n = (i < count) × (j ≤ n)

module _ {P S : Type 0} where
  -- The engine's thread has taken nothing.
  abbrev pub untaken : CoreEngine P S → P → Messages → Taken P
  untaken e parser messages = record {
    parsed = [];
    messages = messages;
    parser = parser;
    sequence = e.receiver.sequence;
  }

  -- What the engine's thread has come to, with its parser.
  abbrev pub taken_by : Threads P S → P → Taken P
  taken_by s parser = record {
    parsed = s.history.parsed;
    messages = s.messages;
    parser = parser;
    sequence = s.engine.receiver.sequence;
  }

  -- Before the threads start nothing is queued.
  pub record IsIdle (e : CoreEngine P S) : Type 0 where
    pub valid : IsValid e.receiver.packet_queue
    pub no_packet : contents e.receiver.packet_queue ≡ []
    pub no_message :
        (k : ℕ) (q : MessageQueue)
        → get_elem? e.dispatcher.queues k ≡ some q
        → IsValid q × (contents q ≡ [])
    pub paired : length e.dispatcher.queues ≡ length e.dispatcher.subscribers

  module _ (parser_ops : Parser P) (subscriber_ops : Subscriber S) (start : CoreEngine P S)
      (parser : P) (messages : Messages) where
    pub record Holds (s : Threads P S) : Type 0 where
      pub packets : Flows s.engine.receiver.packet_queue s.history.arrived s.history.read
      pub taken :
          (now : P) × (s.engine.parser ≡ some now)
          × (parse_each parser_ops (untaken start parser messages) s.history.read
              ≡ some (taken_by s now))
      pub placed : Placed s.place (length (queues s))
      pub paired : length (queues s) ≡ length (subscribers s)
      pub served :
          (k : ℕ) (q : MessageQueue)
          → get_elem? (queues s) k ≡ some q
          → Serves q
              (s.history.offered k)
              (s.history.given k)
              (pending s.place s.messages k)
              s.history.parsed
      pub delivered :
          (k : ℕ) (subscriber : S)
          → get_elem? (subscribers s) k ≡ some subscriber
          → (first : S) × (get_elem? start.dispatcher.subscribers k ≡ some first)
            × (subscriber ≡ deliver subscriber_ops first (s.history.given k))

    pub begin-Holds :
        (packet : Packet) (raw_packet : MessageView) (msg : NormalizedMessage)
        → IsIdle start
        → start.parser ≡ some parser
        → Holds (begin start packet raw_packet messages msg)
    unfolding begin parse_each deliver
    begin-Holds packet raw_packet msg idle set = record {
      packets = record { valid = idle.valid; flow = sym idle.no_packet };
      taken = (parser, set, refl);
      placed = tt;
      paired = idle.paired;
      served = λ k q here.
          let (valid, empty) = idle.no_message k q here in
          record { flows = record { valid = valid; flow = sym empty }; offers = refl };
      delivered = λ k subscriber here. (subscriber, here, refl);
    }
