-- ===== src/Core/Engine/Threads/Packets.antt =====
-- What the calls of the receiver do to its queue and to its numbers.
use winter_square.Common.{
  ℕ, ◌≡◌, refl, sym, ◌∙◌, Bool, true, false, List, [], ◌∷◌, ◌++◌, Option, none, some, ltb, length,
  Bool-cases, inl, inr,
}
use winter_square.Common.Word.{add_u32}
use winter_square.Core.Types.{MessageView}
use winter_square.Core.Receiver.{Packet, UdpReceiver, receive_round, read_packet}
use winter_square.Core.Receiver.Views.{view_of}
use winter_square.Core.Engine.Threads.{arrives}
use winter_square.Core.Engine.Threads.Holds.{Flows}
use winter_square.Core.Engine.Threads.Flow.{push-Flows, pop-Flows, pop_none-Flows}
use winter_square.Queue.Spsc.{pop}
use mathlib.Core.List.{append-nil}

pub receive_round-Flows :
    (r : UdpReceiver) (packet : Packet) (answer : Option (List ℕ)) (now : ℕ)
    {arrived : List (Packet × Bool)} {read : List Packet}
    → Flows r.packet_queue arrived read
    → Flows
        (receive_round r packet answer now).0.packet_queue
        (arrived ++ arrives r packet answer now)
        read
unfolding receive_round arrives
receive_round-Flows r packet none now {arrived} f = rw (append-nil arrived) f
receive_round-Flows r packet (some bytes) now {arrived} f =
    elim (Bool-cases (ltb 0 (length bytes))) [
      | inl some_bytes ↦ rw some_bytes (push-Flows f _)
      | inr nothing ↦ rw (nothing, append-nil arrived) f
    ]

pub receive_round-sequence :
    (r : UdpReceiver) (packet : Packet) (answer : Option (List ℕ)) (now : ℕ)
    → (receive_round r packet answer now).0.sequence ≡ r.sequence
unfolding receive_round
receive_round-sequence r packet none now = refl
receive_round-sequence r packet (some bytes) now = elim (Bool-cases (ltb 0 (length bytes))) [
  | inl some_bytes ↦ rw some_bytes
  | inr nothing ↦ rw nothing
]

-- What `read_packet` does when there is a packet, and when there is none.
module _ (r : UdpReceiver) (view : MessageView) where
  abbrev popped : Bool
  popped = (pop r.packet_queue r.current_packet).0

  read_packet-got : (read_packet r view).0 ≡ popped
  unfolding read_packet
  read_packet-got = elim (Bool-cases popped) [ inl e ↦ rw e | inr e ↦ rw e ]

  read_packet-queue : (read_packet r view).2.packet_queue ≡ (pop r.packet_queue r.current_packet).2
  unfolding read_packet
  read_packet-queue = elim (Bool-cases popped) [ inl e ↦ rw e | inr e ↦ rw e ]

  read_packet-current :
      (read_packet r view).2.current_packet ≡ (pop r.packet_queue r.current_packet).1
  unfolding read_packet
  read_packet-current = elim (Bool-cases popped) [ inl e ↦ rw e | inr e ↦ rw e ]

  pub read_packet-none :
      (read_packet r view).0 ≡ false → (read_packet r view).2.sequence ≡ r.sequence
  unfolding read_packet
  read_packet-none none_read = let e : popped ≡ false = sym read_packet-got ∙ none_read in rw e

  pub read_packet-some :
      (read_packet r view).0 ≡ true
      → ((read_packet r view).2.sequence ≡ add_u32 r.sequence 1)
        × ((read_packet r view).1 ≡ view_of r.sequence (read_packet r view).2.current_packet)
  unfolding read_packet
  read_packet-some got = let e : popped ≡ true = sym read_packet-got ∙ got in (rw e, rw e)

  module _ {arrived : List (Packet × Bool)} {read : List Packet}
      (f : Flows r.packet_queue arrived read) where
    pub read_packet_none-Flows :
        (read_packet r view).0 ≡ false → Flows (read_packet r view).2.packet_queue arrived read
    read_packet_none-Flows none_read =
        rw read_packet-queue (pop_none-Flows f r.current_packet (sym read_packet-got ∙ none_read))

    pub read_packet-Flows :
        (read_packet r view).0 ≡ true
        → Flows
            (read_packet r view).2.packet_queue
            arrived
            (read ++ (read_packet r view).2.current_packet ∷ [])
    read_packet-Flows got =
        rw (read_packet-queue, read_packet-current)
          (pop-Flows f r.current_packet (sym read_packet-got ∙ got))
