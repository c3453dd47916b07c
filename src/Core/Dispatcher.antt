-- ===== src/Core/Dispatcher.antt =====
-- `Dispatcher` of core/distribution/dispatcher.hpp: one queue for each subscriber. `dispatch` runs on
-- the parser's thread and `dispatch_round`, the body of `dispatch_loop`, on the dispatcher's; here
-- they are steps that do not overlap.
pub mod Mailboxes
pub mod Delivery
pub mod Order
use winter_square.Common.{
  ℕ, zero, suc, Bool, true, false, not, ◌||◌, List, [], ◌∷◌, ◌++◌, map, Option, none, some,
  if◌then◌else◌, length, ◌>>=◌,
}
use winter_square.Common.Word.{add_u64, sub_u64}
use winter_square.Core.Types.{NormalizedMessage, blank}
use winter_square.Core.Statistics.{Statistics, initial, update_latency}
use winter_square.Core.Subscriber.{Subscriber}
use winter_square.Queue.Spsc
use winter_square.Queue.Spsc.{SpscQueue}

pub record Dispatcher (S : Type 0) : Type 0 where
  pub subscribers : List S
  pub queues : List (SpscQueue NormalizedMessage)
  pub running : Bool
  pub stats : Statistics

abbrev pub fresh : (S : Type 0) → Dispatcher S
fresh S = record { subscribers = []; queues = []; running = false; stats = initial }

abbrev pub drop_packet : Statistics → Statistics
drop_packet s = record s { packets_dropped = add_u64 s.packets_dropped 1 }

-- The loop of `dispatch` over the queues.
unfoldable pub push_all :
    NormalizedMessage
    → List (SpscQueue NormalizedMessage)
    → Statistics
    → List (SpscQueue NormalizedMessage) × Statistics
push_all msg [] stats = ([], stats)
push_all msg (queue ∷ queues) stats =
    let (pushed, queue') = Spsc.push queue msg in
    let (queues', stats') = push_all msg queues (if pushed then stats else drop_packet stats) in
    (queue' ∷ queues', stats')

module _ {S : Type 0} (ops : Subscriber S) where
  -- `queue_size` is the template argument `Size` of the queues.
  unfoldable pub add_subscriber : ℕ → Dispatcher S → S → Dispatcher S
  add_subscriber queue_size d subscriber = record d {
    subscribers = d.subscribers ++ subscriber ∷ [];
    queues = d.queues ++ Spsc.init queue_size blank ∷ [];
  }

  unfoldable pub start : Dispatcher S → Dispatcher S
  start d =
      if d.running
      then d
      else record d { subscribers = map ops.initialize d.subscribers; running = true }

  -- `joined` is what the dispatcher's thread makes of the dispatcher until it is joined, or `none`
  -- when the `join` does not return.
  unfoldable pub stop :
      Dispatcher S → (Dispatcher S → Option (Dispatcher S)) → Option (Dispatcher S)
  stop d joined = if not d.running then some d else (do
    d' ← joined (record d { running = false })
    some (record d' { subscribers = map ops.shutdown d'.subscribers }))

  -- `now` is what `get_timestamp` returns.
  unfoldable pub dispatch : ℕ → Dispatcher S → NormalizedMessage → Dispatcher S
  unfolding push_all
  dispatch now d msg =
      let latency = sub_u64 now msg.local_timestamp in
      let (queues, stats) = push_all msg d.queues d.stats in
      let counted = record stats { messages_dispatched = add_u64 stats.messages_dispatched 1 } in
      record d { queues = queues; stats = update_latency counted latency }

  abbrev pub subscriber_count : Dispatcher S → ℕ
  subscriber_count d = length d.subscribers

  -- `while (queue->pop(msg)) …`: the queue, the subscriber and `msg` afterwards, and whether anything
  -- was popped. `none` is a loop out of fuel. The answer of `on_message` is not used.
  unfoldable pub drain :
      ℕ
      → SpscQueue NormalizedMessage
      → S
      → NormalizedMessage
      → Bool
      → Option (SpscQueue NormalizedMessage × S × NormalizedMessage × Bool)
  drain zero queue subscriber msg active = none
  drain (suc fuel) queue subscriber msg active =
      let (popped, msg', queue') = Spsc.pop queue msg in
      elim popped [
        | true ↦ drain fuel queue' (ops.on_message subscriber msg').1 msg' true
        | false ↦ some (queue', subscriber, msg', active)
      ]

  -- The `for` loop over the subscribers; a queue of `size` slots has fewer items than that.
  unfoldable pub drain_all :
      List (SpscQueue NormalizedMessage)
      → List S
      → NormalizedMessage
      → Bool
      → Option (List (SpscQueue NormalizedMessage) × List S × NormalizedMessage × Bool)
  unfolding drain
  drain_all queues [] msg active = some (queues, [], msg, active)
  drain_all [] (subscriber ∷ subscribers) msg active = none
  drain_all (queue ∷ queues) (subscriber ∷ subscribers) msg active = do
    (queue', subscriber', msg', active') ← drain queue.size queue subscriber msg active
    (queues', subscribers', msg'', active'') ← drain_all queues subscribers msg' active'
    some (queue' ∷ queues', subscriber' ∷ subscribers', msg'', active'')

  unfoldable pub dispatch_round :
      Dispatcher S → NormalizedMessage → Option (Dispatcher S × NormalizedMessage × Bool)
  unfolding drain_all
  dispatch_round d msg = do
    (queues, subscribers, msg', active) ← drain_all d.queues d.subscribers msg false
    some (record d { queues = queues; subscribers = subscribers }, msg', active)
