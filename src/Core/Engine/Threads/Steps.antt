-- ===== src/Core/Engine/Threads/Steps.antt =====
-- The steps of a running engine's threads, and the states that they reach.
use winter_square.Common.{ℕ, ◌<◌, ◌≤◌, ◌≡◌, true, false, List, Option, some, length, get_elem?}
use winter_square.Core.Types.{NormalizedMessage}
use winter_square.Core.Parser.{Parser}
use winter_square.Core.Subscriber.{Subscriber}
use winter_square.Core.Dispatcher.Mailboxes.{MessageQueue}
use winter_square.Core.Receiver
use winter_square.Core.Receiver.{Packet, UdpReceiver}
use winter_square.Queue.Spsc
use winter_square.Core.Engine.Threads.{
  reading, dispatching, posting, Thread, receiver_thread, engine_thread, dispatcher_thread,
  IsAnswer, Threads, queues, subscribers, receive, find_none, parse_found, post_one, count_message,
  finish_packet, give, pass,
}

module _ {P S : Type 0} (parser_ops : Parser P) (subscriber_ops : Subscriber S) where
  -- The steps of each thread.
  pub data Step : Thread → Threads P S → Threads P S → Type 0 where
    receives :
        {s : Threads P S} (answer : Option (List ℕ)) (now : ℕ)
        → IsAnswer answer
        → Step receiver_thread s (receive s answer now)
    finds_none :
        {s : Threads P S}
        → s.place ≡ reading
        → (Receiver.read_packet s.engine.receiver s.raw_packet).0 ≡ false
        → Step engine_thread s (find_none s)
    parses :
        {s : Threads P S} (parse_start count : ℕ) (messages : List NormalizedMessage)
        (before after : P)
        → s.place ≡ reading
        → (Receiver.read_packet s.engine.receiver s.raw_packet).0 ≡ true
        → s.engine.parser ≡ some before
        → parser_ops.parse before
            (Receiver.read_packet s.engine.receiver s.raw_packet).1
            s.messages
            (length s.messages)
          ≡ some (count, messages, after)
        → Step engine_thread s (parse_found s parse_start count messages after)
    dispatches :
        {s : Threads P S} (parse_start count i now : ℕ)
        → s.place ≡ dispatching parse_start count i
        → i < count
        → Step engine_thread s (record s { place = posting parse_start count i now 0 })
    posts :
        {s : Threads P S} (parse_start count i now j : ℕ) (m : NormalizedMessage) (q : MessageQueue)
        → s.place ≡ posting parse_start count i now j
        → get_elem? s.messages i ≡ some m
        → get_elem? (queues s) j ≡ some q
        → Step engine_thread s (post_one s parse_start count i now j m q)
    counts :
        {s : Threads P S} (parse_start count i now : ℕ) (m : NormalizedMessage)
        → s.place ≡ posting parse_start count i now (length (queues s))
        → get_elem? s.messages i ≡ some m
        → Step engine_thread s (count_message s parse_start count i now m)
    finishes :
        {s : Threads P S} (parse_start count parse_end : ℕ)
        → s.place ≡ dispatching parse_start count count
        → Step engine_thread s
            (finish_packet parser_ops subscriber_ops s parse_start count parse_end)
    gives :
        {s : Threads P S} (subscriber : S) (q : MessageQueue)
        → get_elem? (subscribers s) s.turn ≡ some subscriber
        → get_elem? (queues s) s.turn ≡ some q
        → (Spsc.pop q s.msg).0 ≡ true
        → Step dispatcher_thread s (give parser_ops subscriber_ops s subscriber q)
    passes :
        {s : Threads P S} (subscriber : S) (q : MessageQueue)
        → get_elem? (subscribers s) s.turn ≡ some subscriber
        → get_elem? (queues s) s.turn ≡ some q
        → (Spsc.pop q s.msg).0 ≡ false
        → Step dispatcher_thread s (pass parser_ops subscriber_ops s q)
    turns :
        {s : Threads P S}
        → length (subscribers s) ≤ s.turn
        → Step dispatcher_thread s (record s { turn = 0 })

  pub data Reach (start : Threads P S) : Threads P S → Type 0 where
    here : Reach start start
    next : {t : Thread} {s s' : Threads P S} → Reach start s → Step t s s' → Reach start s'
