-- ===== src/Core/Engine/Joined.antt =====
-- The `stop`s of the receiver (core/network/udp_receiver.hpp) and of the dispatcher
-- (core/distribution/dispatcher.hpp) when their threads run.
use winter_square.Common.{ℕ, ◌≡◌, refl, true, false, List, [], ◌∷◌, map, Option, none, some}
use winter_square.Common.Int.{ℤ, negsuc}
use winter_square.Core.Subscriber.{Subscriber}
use winter_square.Core.Dispatcher
use winter_square.Core.Dispatcher.{Dispatcher}
use winter_square.Core.Receiver
use winter_square.Core.Receiver.{Packet, UdpReceiver, is_negative, receive_rest}
use winter_square.Core.Engine.Threads.Socket.{IsReceiving, receive_rest-IsReceiving}

pub stop-never :
    (r : UdpReceiver) (packet : Packet) → r.running ≡ true → Receiver.stop r packet none ≡ none
unfolding Receiver.stop
stop-never r packet running = rw running refl

pub halted_rest :
    (fd : ℤ) (r : UdpReceiver) (packet : Packet) (rounds : List (Option (List ℕ) × ℕ))
    → IsReceiving true fd r
    → IsReceiving false fd (receive_rest (record r { running = false }) packet rounds)
halted_rest fd r packet rounds o =
    receive_rest-IsReceiving false fd (record r { running = false }) packet rounds
      (record { running = refl; on_socket = o.on_socket })

pub stop-closes :
    (fd : ℤ) (r : UdpReceiver) (packet : Packet) (rounds : List (Option (List ℕ) × ℕ))
    → is_negative fd ≡ false
    → IsReceiving true fd r
    → Receiver.stop r packet (some rounds)
      ≡ some (
        record (receive_rest (record r { running = false }) packet rounds) { socket_fd = negsuc 0 },
        fd ∷ [],
      )
unfolding Receiver.stop
stop-closes fd r packet rounds valid o =
    rw (o.running, (halted_rest fd r packet rounds o).on_socket, valid) refl

pub stop-joined :
    {S : Type 0} (ops : Subscriber S) (d d' : Dispatcher S)
    (joined : Dispatcher S → Option (Dispatcher S))
    → d.running ≡ true
    → joined (record d { running = false }) ≡ some d'
    → Dispatcher.stop ops d joined
      ≡ some (record d' { subscribers = map ops.shutdown d'.subscribers })
unfolding Dispatcher.stop
stop-joined ops d d' joined running returns = rw (running, returns) refl
