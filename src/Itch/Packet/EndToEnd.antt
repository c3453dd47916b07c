-- ===== src/Itch/Packet/EndToEnd.antt =====
-- From a datagram on the socket to the subscribers: one pass of each of the three loops.
use winter_square.Common.{
  ℕ, ◌≤◌, ◌<◌, ◌≡◌, refl, ap, ◌∙◌, Bool, List, [], ◌∷◌, ◌++◌, some, arith, length, drop, map, All,
  All-drop,
}
use winter_square.Core.Types.{MessageView, NormalizedMessage, max_packet_size}
use winter_square.Core.Subscriber.{Subscriber}
use winter_square.Core.Dispatcher.{Dispatcher, dispatch_round}
use winter_square.Core.Dispatcher.Mailboxes.{mailboxes, Ready}
use winter_square.Core.Dispatcher.Delivery.{deliver_all, dispatch_round_delivers}
use winter_square.Core.Dispatcher.Order.{HasRoom, append_all}
use winter_square.Core.Receiver.{Packet, receive_round}
use winter_square.Core.Receiver.Views.{packet_of}
use winter_square.Core.Receiver.Flow.{receive_round-Received}
use winter_square.Core.Engine.{CoreEngine, parse_round}
use winter_square.Queue.Spsc
use winter_square.Queue.Spsc.Ring.{IsValid}
use winter_square.Queue.Spsc.Refine.{contents}
use winter_square.Itch.Bytes.{IsByte}
use winter_square.Itch.Parser.{ItchParser, itch_parser}
use winter_square.Itch.Builder.{build_packet}
use winter_square.Itch.Packet.Frames.{build_packet-frames}
use winter_square.Itch.Packet.Sent.{Sent, bytes_of, InRange}
use winter_square.Itch.Packet.Feed.{Holds, heard, parse_round-sent}

-- The packet that the receiver makes of a datagram of the generator.
packet_of-Holds :
    (local : Packet) (now : ℕ) (ms : List Sent)
    → All IsByte local.content
    → All InRange ms
    → length (build_packet (map bytes_of ms)) ≤ max_packet_size
    → Holds
        (packet_of local (build_packet (map bytes_of ms)) now)
        ms
        (drop (length (build_packet (map bytes_of ms))) local.content)
packet_of-Holds local now ms bytes h short = record {
  content = refl;
  whole = omega arith;
  in_range = h;
  more_bytes = All-drop IsByte (length (build_packet (map bytes_of ms))) local.content bytes;
}

some_bytes : (ms : List Sent) → 0 < length ms → 1 ≤ length (build_packet (map bytes_of ms))
some_bytes [] h = elim h [ ]
some_bytes (m ∷ ms) h = omega (arith, ap length (build_packet-frames (map bytes_of (m ∷ ms))))

module _ {S : Type 0} (ops : Subscriber S) (e : CoreEngine ItchParser S) (local : Packet)
    (raw_packet : MessageView) (slots : List NormalizedMessage) (now parse_start parse_end : ℕ)
    (clock : ℕ → ℕ) (msg : NormalizedMessage) where
  -- The engine after `recvfrom` has returned the packet of some messages.
  abbrev pub received : List Sent → CoreEngine ItchParser S
  received ms = record e {
    receiver = (receive_round e.receiver local (some (build_packet (map bytes_of ms))) now).0;
  }

  -- An engine with an ITCH parser waits with an empty and valid receiver queue for a packet at
  -- least, and with room in every subscriber's queue. If a datagram arrives that the generator
  -- built of messages in range, one at least, no more than the engine's array has slots, and no
  -- longer than `MAX_PACKET_SIZE`, then a pass of the receiver's loop, one of the engine's and one
  -- of the dispatcher's return, and give every subscriber what waited for it and then these
  -- messages, in order, leaving the queues empty.
  pub datagram_reaches_subscribers :
      (cap : ℕ) (s : ItchParser) (ms : List Sent)
      → IsValid e.receiver.packet_queue
      → contents e.receiver.packet_queue ≡ []
      → 0 < Spsc.capacity e.receiver.packet_queue
      → All IsByte local.content
      → e.parser ≡ some s
      → All InRange ms
      → 0 < length ms
      → length ms ≤ length slots
      → length (build_packet (map bytes_of ms)) ≤ max_packet_size
      → Ready cap e.dispatcher.subscribers e.dispatcher.queues
      → HasRoom cap (length ms) (mailboxes e.dispatcher.subscribers e.dispatcher.queues)
      → (e' : CoreEngine ItchParser S) × (view : MessageView) × (slots' : List NormalizedMessage)
        × (parse_round itch_parser ops (received ms) raw_packet slots parse_start parse_end clock
            ≡ some (e', view, slots'))
        × (d : Dispatcher S) × (msg' : NormalizedMessage) × (active : Bool) × (dispatch_round ops
              e'.dispatcher msg
            ≡ some (d, msg', active))
        × (mailboxes d.subscribers d.queues
            ≡ deliver_all ops (
                append_all
                  (heard now ms slots)
                  (mailboxes e.dispatcher.subscribers e.dispatcher.queues)))
  datagram_reaches_subscribers cap s ms valid none_queued some_room bytes set h pos fit short ready
        room =
      let datagram = build_packet (map bytes_of ms) in
      let p : Packet = packet_of local datagram now in
      let got =
        receive_round-Received e.receiver local datagram now valid (some_bytes ms pos)
          (omega (arith, ap length none_queued)) in
      let (e', parsed, ready', boxes, _, _) =
        parse_round-sent ops (received ms) raw_packet slots parse_start parse_end clock cap s p []
          ms (drop (length datagram) local.content) got.valid set
          (got.queued ∙ ap (λ c. c ++ p ∷ []) none_queued)
          (packet_of-Holds local now ms bytes h short) pos fit ready room in
      let (d, msg', active, done, _, delivered, _) =
        dispatch_round_delivers ops cap e'.dispatcher msg ready' in
      (e', _, _, parsed, d, msg', active, done, delivered ∙ ap (deliver_all ops) boxes)
