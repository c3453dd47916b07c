-- ===== src/Core/Receiver.antt =====
-- `UDPReceiver` of core/network/udp_receiver.hpp. The socket calls of the system are not modelled:
-- what they return is an argument of each operation. Setting options, the address and the affinity
-- of the thread have no effect on the state.
pub mod Views
pub mod Flow
use winter_square.Common.{
  ℕ, zero, suc, ◌+◌, ◌%◌, ◌^◌, Bool, true, false, not, ◌||◌, List, [], ◌∷◌, ◌++◌, Option, none,
  some, ◌>>=◌, if◌then◌else◌, ltb, length, drop, replicate,
}
use winter_square.Common.Word.{add_u64, add_u32}
use winter_square.Common.Int.{ℤ, pos, negsuc}
use winter_square.Core.Types.{MessageView, max_packet_size, packet_ring_size}
use winter_square.Core.Statistics.{Statistics, initial}
use winter_square.Queue.Spsc
use winter_square.Queue.Spsc.{SpscQueue}

-- `content` is the array `data`.
pub record Packet : Type 0 where
  pub content : List ℕ
  pub length : ℕ  -- uint32_t
  pub timestamp : ℕ  -- uint64_t

-- The configuration is constant, and no operation's effect on the state reads it.
pub record UdpReceiver : Type 0 where
  pub running : Bool
  pub socket_fd : ℤ
  pub packet_queue : SpscQueue Packet
  pub current_packet : Packet
  pub sequence : ℕ  -- uint32_t
  pub stats : Statistics

unfoldable pub blank_packet : Packet
blank_packet = record { content = replicate max_packet_size 0; length = 0; timestamp = 0 }

-- `ring_size` is the template argument of the queue, `PACKET_RING_SIZE` in the class.
unfoldable pub fresh : ℕ → UdpReceiver
unfolding blank_packet
fresh ring_size = record {
  running = false;
  socket_fd = negsuc 0;
  packet_queue = Spsc.init ring_size blank_packet;
  current_packet = blank_packet;
  sequence = 0;
  stats = initial;
}

abbrev pub is_negative : ℤ → Bool
is_negative (pos n) = false
is_negative (negsuc n) = true

-- What `socket`, `bind` and the `setsockopt` that joins the group return.
pub record SocketAnswers : Type 0 where
  pub socket_answer : ℤ
  pub bind_answer : ℤ
  pub join_answer : ℤ

-- The last component is the descriptors that are closed.
unfoldable pub initialize : UdpReceiver → SocketAnswers → Bool × UdpReceiver × List ℤ
initialize r a =
    if is_negative a.socket_answer
    then (false, record r { socket_fd = a.socket_answer }, [])
    else (if is_negative a.bind_answer || is_negative a.join_answer
        then (false, record r { socket_fd = negsuc 0 }, a.socket_answer ∷ [])
        else (true, record r { socket_fd = a.socket_answer }, []))

unfoldable pub start : UdpReceiver → UdpReceiver
start r = if r.running || is_negative r.socket_fd then r else record r { running = true }

-- The view points at `current_packet_`.
unfoldable pub read_packet : UdpReceiver → MessageView → Bool × MessageView × UdpReceiver
read_packet r view =
    let (popped, packet, queue) = Spsc.pop r.packet_queue r.current_packet in
    if not popped
    then (false, view, record r { packet_queue = queue; current_packet = packet })
    else (
      true,
      record {
        content = some packet.content;
        length = packet.length;
        timestamp = packet.timestamp;
        sequence = r.sequence;
      },
      record r { packet_queue = queue; current_packet = packet; sequence = add_u32 r.sequence 1 },
    )

abbrev pub has_packets : UdpReceiver → Bool
has_packets r = not (Spsc.empty r.packet_queue)

-- The body of `receive_loop` after a `recvfrom` that wrote `bytes` over the front of the local
-- `packet`, of which it returned the number, or that failed (`none`).
unfoldable pub receive_round : UdpReceiver → Packet → Option (List ℕ) → ℕ → UdpReceiver × Packet
receive_round r packet none now = (r, packet)
receive_round r packet (some bytes) now =
    let content = bytes ++ drop (length bytes) packet.content in
    if ltb 0 (length bytes)
    then (let packet' : Packet = record {
      content = content;
      length = length bytes % 2 ^ 32;
      timestamp = now;
    } in
        let (pushed, queue) = Spsc.push r.packet_queue packet' in
        let stats : Statistics =
          if pushed
          then record r.stats { packets_received = add_u64 r.stats.packets_received 1 }
          else record r.stats { packets_dropped = add_u64 r.stats.packets_dropped 1 } in
        (record r { packet_queue = queue; stats = stats }, packet'))
    else (r, record packet { content = content })

-- The last rounds of `receive_loop`: what `recvfrom` and the clock answer in each.
unfoldable pub receive_rest : UdpReceiver → Packet → List (Option (List ℕ) × ℕ) → UdpReceiver
receive_rest r packet [] = r
receive_rest r packet ((answer, now) ∷ rounds) =
    let (r', packet') = receive_round r packet answer now in receive_rest r' packet' rounds

-- `rounds` is what the receiving thread still does until it is joined, or `none` when it stays in
-- `recvfrom`, so that the `join` does not return.
unfoldable pub stop :
    UdpReceiver → Packet → Option (List (Option (List ℕ) × ℕ)) → Option (UdpReceiver × List ℤ)
unfolding receive_rest
stop r packet rounds = if not r.running then some (r, []) else (do
  answers ← rounds
  let joined = receive_rest (record r { running = false }) packet answers
  some (
      if not (is_negative joined.socket_fd)
      then (record joined { socket_fd = negsuc 0 }, joined.socket_fd ∷ [])
      else (joined, [])))
