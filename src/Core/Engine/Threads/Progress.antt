-- ===== src/Core/Engine/Threads/Progress.antt =====
-- No thread of a running engine is ever stuck.
use winter_square.Common.{
  ◌≡◌, refl, ap, ◌∙◌, none, some, arith, length, get_elem?-some, Bool-cases, inl, inr, dec_lt,
}
use winter_square.Core.Types.{MessageView, NormalizedMessage}
use winter_square.Core.Parser.{Parser, IsParser}
use winter_square.Core.Subscriber.{Subscriber}
use winter_square.Core.Dispatcher.Mailboxes.{Messages}
use winter_square.Core.Receiver.{Packet, read_packet}
use winter_square.Core.Engine.{CoreEngine}
use winter_square.Core.Engine.Round.{IsReadable}
use winter_square.Core.Engine.Threads.{
  Place, reading, dispatching, posting, Thread, receiver_thread, engine_thread, dispatcher_thread,
  Threads, queues, subscribers, begin,
}
use winter_square.Core.Engine.Threads.Steps.{
  Step, receives, finds_none, parses, dispatches, posts, counts, finishes, gives, passes, turns,
  Reach, here, next,
}
use winter_square.Core.Engine.Threads.Holds.{Placed, IsIdle, Holds}
use winter_square.Core.Engine.Threads.Delivered.{reach-Holds}
use winter_square.Core.Engine.Threads.Sound.{Sized, IsSound, current_parsed, Step-IsSound}
use winter_square.Queue.Spsc

module _ {P S : Type 0} (parser_ops : Parser P) (subscriber_ops : Subscriber S)
    (law : IsParser parser_ops) (e : CoreEngine P S) (parser : P) (messages : Messages) where
  -- A step of a thread from a state.
  abbrev Moves : Thread → Threads P S → Type 0
  Moves t s = (s' : Threads P S) × Step parser_ops subscriber_ops t s s'

  module _ (s : Threads P S) (h : Holds parser_ops subscriber_ops e parser messages s)
      (sound : IsSound s) where
    engine-Moves :
        (place : Place)
        → s.place ≡ place
        → Placed place (length (queues s))
        → Sized place (length s.messages)
        → Moves engine_thread s
    engine-Moves reading at fits sized =
        elim (Bool-cases (read_packet s.engine.receiver s.raw_packet).0) [
          | inl got ↦
              let (now, set, all) = h.taken in
              let ((count, messages', after), parsed, few) =
                current_parsed parser_ops subscriber_ops law s now h.packets sound got in
              (_, parses 0 count messages' now after at got set parsed)
          | inr none_read ↦ (_, finds_none at none_read)
        ]
    engine-Moves (dispatching parse_start count i) at fits sized = elim (dec_lt i count) [
      | yes more ↦ (_, dispatches parse_start count i 0 at more)
      | no over ↦
          let last : i ≡ count = omega arith in
          (_, finishes parse_start count 0 (at ∙ ap (λ n. dispatching parse_start count n) last))
    ]
    engine-Moves (posting parse_start count i now j) at (more, within) sized =
        let (m, message) = get_elem?-some s.messages i (omega arith) in
        elim (dec_lt j (length (queues s))) [
          | yes left ↦
              let (q, queue) = get_elem?-some (queues s) j left in
              (_, posts parse_start count i now j m q at message queue)
          | no over ↦
              let last : j ≡ length (queues s) = omega arith in
              (
                _,
                counts parse_start count i now m
                    (at ∙ ap (λ n. posting parse_start count i now n) last) message,
              )
        ]

    dispatcher-Moves : Moves dispatcher_thread s
    dispatcher-Moves = elim (dec_lt s.turn (length (subscribers s))) [
      | yes left ↦
          let (subscriber, turn) = get_elem?-some (subscribers s) s.turn left in
          let (q, queue) = get_elem?-some (queues s) s.turn (omega (arith, h.paired)) in
          elim (Bool-cases (Spsc.pop q s.msg).0) [
            | inl got ↦ (_, gives subscriber q turn queue got)
            | inr none_left ↦ (_, passes subscriber q turn queue none_left)
          ]
      | no over ↦ (_, turns (omega arith))
    ]

  module _ (packet : Packet) (raw_packet : MessageView) (msg : NormalizedMessage)
      (readable : IsReadable packet) (idle : IsIdle e) (set : e.parser ≡ some parser) where
    pub reach-IsSound :
        {s : Threads P S}
        → Reach parser_ops subscriber_ops (begin e packet raw_packet messages msg) s
        → IsSound s
    unfolding begin
    reach-IsSound here = record { readable = readable; all_readable = tt; sized = tt }
    reach-IsSound (next r step) =
        Step-IsSound parser_ops subscriber_ops law step
          (reach-Holds parser_ops subscriber_ops e parser messages packet raw_packet msg idle set
            r).packets
          (reach-IsSound r)

    -- If an engine starts with a parser that keeps to its contract, with valid queues, one for each subscriber,
    -- with nothing queued and with a readable buffer, then each of its three threads has a step in every state
    -- that they reach: no packet is refused by `parse`, the messages counted are in the array, and
    -- every queue and subscriber that a loop comes to is there.
    pub threads_progress :
        {s : Threads P S}
        → Reach parser_ops subscriber_ops (begin e packet raw_packet messages msg) s
        → (t : Thread) → (s' : Threads P S) × Step parser_ops subscriber_ops t s s'
    threads_progress r receiver_thread = (_, receives none 0 tt)
    threads_progress {s} r engine_thread =
        let h =
          reach-Holds parser_ops subscriber_ops e parser messages packet raw_packet msg idle set
            r in
        let sound = reach-IsSound r in engine-Moves s h sound s.place refl h.placed sound.sized
    threads_progress {s} r dispatcher_thread =
        dispatcher-Moves s
          (reach-Holds parser_ops subscriber_ops e parser messages packet raw_packet msg idle set r)
          (reach-IsSound r)
