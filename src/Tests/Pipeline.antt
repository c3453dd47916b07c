-- ===== src/Tests/Pipeline.antt =====
-- The receiver, the dispatcher (core/network, core/distribution) on concrete inputs.
use winter_square.Common.{ℕ, ◌+◌, ◌%◌, ◌^◌, ◌≡◌, refl, Bool, true, List, [], ◌∷◌, map, some, arith}
use winter_square.Common.Word.{add_u64}
use winter_square.Common.Int.{pos}
use winter_square.Core.Types.{NormalizedMessage, blank}
use winter_square.Core.Statistics
use winter_square.Core.Subscriber.{Subscriber}
use winter_square.Core.Dispatcher.{Dispatcher, dispatch, dispatch_round}
use winter_square.Core.Dispatcher.Mailboxes.{
  Messages, mailboxes, Ready, post, full_boxes, dispatch_posts,
}
use winter_square.Core.Dispatcher.Delivery.{deliver, deliver_all, dispatch_round_delivers}
use winter_square.Core.Dispatcher.Order.{append_all, dispatch_each, dispatch_in_order}
use winter_square.Core.Receiver.{Packet, UdpReceiver}
use winter_square.Core.Receiver.Views.{payload, views_from, packets_of}
use winter_square.Core.Receiver.Flow.{receive_each, read_each, receive-read}
use winter_square.Queue.Spsc.{init, capacity}
use winter_square.Queue.Spsc.Ring.{IsSize, distance, static_assert-IsSize, init-IsValid}

four-IsSize : IsSize 4
four-IsSize = static_assert-IsSize 4 (omega arith) (omega arith) refl

-- A subscriber that keeps what it is given, newest first.
abbrev log_subscriber : Subscriber Messages
log_subscriber = record {
  on_message = λ log m. (true, m ∷ log);
  initialize = λ log. log;
  shutdown = λ log. log;
}

-- Two subscribers, each with a queue of four slots.
abbrev two_subscribers : Dispatcher Messages
two_subscribers = record {
  subscribers = [] ∷ [] ∷ [];
  queues = init 4 blank ∷ init 4 blank ∷ [];
  running = true;
  stats = Statistics.initial;
}

two_subscribers-Ready : Ready 3 two_subscribers.subscribers two_subscribers.queues
unfolding capacity init
two_subscribers-Ready =
    (init-IsValid blank four-IsSize, refl, (init-IsValid blank four-IsSize, refl, tt))

abbrev first : NormalizedMessage
first = record blank { order_id = 1 }

abbrev second : NormalizedMessage
second = record blank { order_id = 2 }

abbrev boxes : List (Messages × Messages)
boxes = mailboxes two_subscribers.subscribers two_subscribers.queues

dispatch_posts_example :
    let d = dispatch log_subscriber 10 two_subscribers first in
    Ready 3 d.subscribers d.queues
    × (mailboxes d.subscribers d.queues ≡ post 3 first boxes)
    × (d.stats.packets_dropped % 2 ^ 64 ≡ (0 + full_boxes 3 boxes) % 2 ^ 64)
    × (d.stats.messages_dispatched ≡ add_u64 0 1)
    × (d.subscribers ≡ [] ∷ [] ∷ [])
dispatch_posts_example =
    dispatch_posts 3 first 10 two_subscribers log_subscriber two_subscribers-Ready

dispatch_round_delivers_example :
    (d' : Dispatcher Messages) × (msg' : NormalizedMessage) × (active : Bool) × (dispatch_round
        log_subscriber two_subscribers blank
      ≡ some (d', msg', active))
    × Ready 3 d'.subscribers d'.queues
    × (mailboxes d'.subscribers d'.queues ≡ deliver_all log_subscriber boxes)
    × (d'.stats ≡ two_subscribers.stats)
dispatch_round_delivers_example =
    dispatch_round_delivers log_subscriber 3 two_subscribers blank two_subscribers-Ready

abbrev calls : List (ℕ × NormalizedMessage)
calls = (10, first) ∷ (20, second) ∷ []

dispatch_in_order_example :
    (d' : Dispatcher Messages) × (msg' : NormalizedMessage) × (active : Bool) × (dispatch_round
        log_subscriber
        (dispatch_each log_subscriber two_subscribers calls)
        blank
      ≡ some (d', msg', active))
    × Ready 3 d'.subscribers d'.queues
    × (mailboxes d'.subscribers d'.queues
        ≡ (second ∷ first ∷ [], []) ∷ (second ∷ first ∷ [], []) ∷ [])
    × (d'.stats.packets_dropped % 2 ^ 64 ≡ 0 % 2 ^ 64)
unfolding init distance append_all deliver deliver_all
dispatch_in_order_example =
    dispatch_in_order log_subscriber 3 calls two_subscribers blank two_subscribers-Ready
      (omega arith)

abbrev empty_packet : Packet
empty_packet = record { content = 0 ∷ 0 ∷ 0 ∷ []; length = 0; timestamp = 0 }

abbrev receiver : UdpReceiver
receiver = record {
  running = true;
  socket_fd = pos 3;
  packet_queue = init 4 empty_packet;
  current_packet = empty_packet;
  sequence = 6;
  stats = Statistics.initial;
}

-- Two datagrams, the second shorter than the first.
abbrev datagrams : List (List ℕ × ℕ)
datagrams = (1 ∷ 2 ∷ [], 100) ∷ (3 ∷ [], 200) ∷ []

receive-read_example :
    let r' = receive_each receiver empty_packet datagrams in
    (read_each 2 r' ≡ views_from 6 (packets_of empty_packet datagrams))
    × (map payload (packets_of empty_packet datagrams) ≡ (1 ∷ 2 ∷ []) ∷ (3 ∷ []) ∷ [])
    × (r'.stats.packets_received % 2 ^ 64 ≡ 2 % 2 ^ 64)
    × (r'.stats.packets_dropped ≡ 0)
unfolding init capacity distance
receive-read_example =
    receive-read receiver empty_packet datagrams 2 (init-IsValid empty_packet four-IsSize)
      (omega arith) (omega arith) (omega arith)
