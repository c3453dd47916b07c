-- ===== src/Core/Receiver/Flow.antt =====
-- What comes out of the receiver is what went in: the packets that had room, in order.
use winter_square.Common.{
  ℕ, zero, suc, ◌+◌, ◌%◌, ◌^◌, ◌≤◌, ◌<◌, ◌≡◌, refl, sym, ap, ap₂, ◌∙◌, Bool, true, false, List, [],
  ◌∷◌, ◌++◌, map, some, arith, lt→ltb, if◌then◌else◌, length, length-append, All,
}
use winter_square.Common.Word.{add_u64, add_u32}
use winter_square.Core.Types.{MessageView, null_view}
use winter_square.Core.Statistics.{Statistics}
use winter_square.Core.Receiver.{Packet, UdpReceiver, receive_round, read_packet}
use winter_square.Core.Receiver.Views.{
  payload, view_of, views_from, packet_of, packets_of, IsDatagram, payload-packets_of,
}
use winter_square.Queue.Fifo
use winter_square.Queue.Spsc
use winter_square.Queue.Spsc.{SpscQueue}
use winter_square.Queue.Spsc.Ring.{IsValid, push-IsValid, pop-IsValid}
use winter_square.Queue.Spsc.Refine.{contents, push_refines, pop_refines}
use winter_square.Queue.Spsc.Client.{capacity-push}
use mathlib.Core.List.{append_assoc, append-nil}

-- One thread receives and another reads; these are their steps, one after the other.
unfoldable pub receive_each : UdpReceiver → Packet → List (List ℕ × ℕ) → UdpReceiver
receive_each r packet [] = r
receive_each r packet ((bytes, now) ∷ rest) =
    let (r', packet') = receive_round r packet (some bytes) now in receive_each r' packet' rest

-- The reader's loop while `read_packet` succeeds, `n` times at most.
unfoldable pub read_each : ℕ → UdpReceiver → List MessageView
read_each zero r = []
read_each (suc n) r =
    let (got, view, r') = read_packet r null_view in
    let rest = read_each n r' in if got then view ∷ rest else []

pushes :
    {q : SpscQueue Packet}
    → IsValid q
    → (p : Packet) → length (contents q) < Spsc.capacity q
    → ◌≡◌ {A = Bool × List Packet}
        ((Spsc.push q p).0, contents (Spsc.push q p).1)
        (true, contents q ++ p ∷ [])
unfolding Fifo.push
pushes {q} v p h = push_refines v p ∙ rw (lt→ltb (length (contents q)) (Spsc.capacity q) h)

pops :
    {q : SpscQueue Packet}
    → IsValid q
    → (item p : Packet) (ps : List Packet) → contents q ≡ p ∷ ps
    → ◌≡◌ {A = Bool × Packet × List Packet}
        ((Spsc.pop q item).0, (Spsc.pop q item).1, contents (Spsc.pop q item).2)
        (true, p, ps)
unfolding Fifo.pop
pops v item p ps e = pop_refines v item ∙ ap (λ c. Fifo.pop c item) e

-- The receiver after a datagram that has room.
pub record Received (r : UdpReceiver) (p : Packet) (out : UdpReceiver × Packet) : Type 0 where
  pub valid : IsValid out.0.packet_queue
  cap : Spsc.capacity out.0.packet_queue ≡ Spsc.capacity r.packet_queue
  pub queued : contents out.0.packet_queue ≡ contents r.packet_queue ++ p ∷ []
  local : out.1 ≡ p
  pub numbered : out.0.sequence ≡ r.sequence
  counted : out.0.stats ≡ record r.stats { packets_received = add_u64 r.stats.packets_received 1 }

pub receive_round-Received :
    (r : UdpReceiver) (packet : Packet) (bytes : List ℕ) (now : ℕ)
    → IsValid r.packet_queue
    → 1 ≤ length bytes
    → length (contents r.packet_queue) < Spsc.capacity r.packet_queue
    → Received r (packet_of packet bytes now) (receive_round r packet (some bytes) now)
unfolding receive_round
receive_round-Received r packet bytes now v some_bytes room =
    let p : Packet = packet_of packet bytes now in
    let e = pushes v p room in
    rw (lt→ltb 0 (length bytes) some_bytes) (record {
      valid = push-IsValid p v;
      cap = capacity-push r.packet_queue p;
      queued = ap (λ o. o.1) e;
      local = refl;
      numbered = refl;
      counted =
          ap
            (λ (b : Bool).
              if◌then◌else◌ {A = Statistics} b
                (record r.stats { packets_received = add_u64 r.stats.packets_received 1 })
                (record r.stats { packets_dropped = add_u64 r.stats.packets_dropped 1 }))
            (ap (λ o. o.0) e);
    })

-- The receiver after some datagrams that have room.
record ReceivedAll (r : UdpReceiver) (ps : List Packet) (out : UdpReceiver) : Type 0 where
  valid : IsValid out.packet_queue
  queued : contents out.packet_queue ≡ contents r.packet_queue ++ ps
  numbered : out.sequence ≡ r.sequence
  counted : out.stats.packets_received % 2 ^ 64 ≡ (r.stats.packets_received + length ps) % 2 ^ 64
  dropped : out.stats.packets_dropped ≡ r.stats.packets_dropped

receive_each-ReceivedAll :
    (r : UdpReceiver) (packet : Packet) (events : List (List ℕ × ℕ))
    → IsValid r.packet_queue
    → All IsDatagram events
    → length (contents r.packet_queue) + length events ≤ Spsc.capacity r.packet_queue
    → ReceivedAll r (packets_of packet events) (receive_each r packet events)
unfolding receive_each packets_of
receive_each-ReceivedAll r packet [] v h room = record {
  valid = v;
  queued = sym (append-nil (contents r.packet_queue));
  numbered = refl;
  counted = omega arith;
  dropped = refl;
}
receive_each-ReceivedAll r packet ((bytes, now) ∷ rest) v (hb, hs) room =
    let p : Packet = packet_of packet bytes now in
    let out : UdpReceiver × Packet = receive_round r packet (some bytes) now in
    let one = receive_round-Received r packet bytes now v hb.0 (omega arith) in
    let fits : length (contents out.0.packet_queue) + length rest
        ≤ Spsc.capacity out.0.packet_queue =
      omega
        (arith, one.cap, ap length one.queued, length-append (contents r.packet_queue) (p ∷ [])) in
    let ih = receive_each-ReceivedAll out.0 out.1 rest one.valid hs fits in
    record {
      valid = ih.valid;
      queued =
          ih.queued
          ∙ ap₂ (λ c l. c ++ packets_of l rest) one.queued one.local
          ∙ append_assoc (contents r.packet_queue) (p ∷ []) (packets_of p rest);
      numbered = ih.numbered ∙ one.numbered;
      counted = omega (
        arith,
        ih.counted,
        ap (λ s. s.packets_received) one.counted,
        ap (λ l. length (packets_of l rest)) one.local,
      );
      dropped = ih.dropped ∙ ap (λ s. s.packets_dropped) one.counted;
    }

pub read_empty :
    (r : UdpReceiver) (view : MessageView)
    → IsValid r.packet_queue
    → contents r.packet_queue ≡ []
    → (read_packet r view).0 ≡ false
unfolding read_packet Fifo.pop
read_empty r view v e =
    let popped : (Spsc.pop r.packet_queue r.current_packet).0 ≡ false =
      ap (λ o. o.0) (pop_refines v r.current_packet ∙ ap (λ c. Fifo.pop c r.current_packet) e) in
    rw popped

-- A `read_packet` that finds `p` at the front.
pub record ReadOne (r : UdpReceiver) (p : Packet) (ps : List Packet)
    (out : Bool × MessageView × UdpReceiver) : Type 0 where
  pub got : out.0 ≡ true
  pub view : out.1 ≡ view_of r.sequence p
  pub valid : IsValid out.2.packet_queue
  pub rest : contents out.2.packet_queue ≡ ps
  pub numbered : out.2.sequence ≡ add_u32 r.sequence 1

pub read_packet-ReadOne :
    (r : UdpReceiver) (view : MessageView) (p : Packet) (ps : List Packet)
    → IsValid r.packet_queue
    → contents r.packet_queue ≡ p ∷ ps
    → ReadOne r p ps (read_packet r view)
unfolding read_packet
read_packet-ReadOne r view p ps v e =
    let popped = pops v r.current_packet p ps e in
    rw (ap (λ o. o.0) popped) (record {
      got = refl;
      view = ap (view_of r.sequence) (ap (λ o. o.1) popped);
      valid = pop-IsValid r.current_packet v;
      rest = ap (λ o. o.2) popped;
      numbered = refl;
    })

read_each_views :
    (ps : List Packet) (n : ℕ) (r : UdpReceiver)
    → IsValid r.packet_queue
    → contents r.packet_queue ≡ ps
    → length ps ≤ n
    → read_each n r ≡ views_from r.sequence ps
unfolding read_each views_from
read_each_views [] zero r v e h = refl
read_each_views (p ∷ ps) zero r v e h = absurd (omega arith)
read_each_views [] (suc n) r v e h = rw (read_empty r null_view v e)
read_each_views (p ∷ ps) (suc n) r v e h =
    let one = read_packet-ReadOne r null_view p ps v e in
    rw one.got (
      ap₂ ◌∷◌ one.view (
        read_each_views ps n (read_packet r null_view).2 one.valid one.rest (omega arith)
        ∙ ap (λ k. views_from k ps) one.numbered))

length-packets_of :
    (packet : Packet) (events : List (List ℕ × ℕ))
    → length (packets_of packet events) ≡ length events
unfolding packets_of
length-packets_of packet [] = refl
length-packets_of packet ((bytes, now) ∷ rest) =
    ap suc (length-packets_of (packet_of packet bytes now) rest)

-- Datagrams of 1 to `MAX_PACKET_SIZE` bytes that a valid queue has room for are all received, none
-- is dropped, and reading often enough returns them: what was
-- queued before and then these, in order, each with its own bytes and time and with consecutive
-- sequence numbers (modulo 2 ^ 32).
pub receive-read :
    (r : UdpReceiver) (packet : Packet) (events : List (List ℕ × ℕ)) (n : ℕ)
    → IsValid r.packet_queue
    → All IsDatagram events
    → length (contents r.packet_queue) + length events ≤ Spsc.capacity r.packet_queue
    → length (contents r.packet_queue) + length events ≤ n
    → let r' = receive_each r packet events in
      (read_each n r' ≡ views_from r.sequence (contents r.packet_queue ++ packets_of packet events))
      × (map payload (packets_of packet events) ≡ map (λ e. e.0) events)
      × (r'.stats.packets_received % 2 ^ 64 ≡ (r.stats.packets_received + length events) % 2 ^ 64)
      × (r'.stats.packets_dropped ≡ r.stats.packets_dropped)
receive-read r packet events n v h room enough =
    let all = receive_each-ReceivedAll r packet events v h room in
    let total : length (contents r.packet_queue ++ packets_of packet events) ≤ n = omega (
      arith,
      length-append (contents r.packet_queue) (packets_of packet events),
      length-packets_of packet events,
    ) in
    (
      read_each_views (contents r.packet_queue ++ packets_of packet events) n
            (receive_each r packet events) all.valid all.queued total
          ∙ ap (λ k. views_from k (contents r.packet_queue ++ packets_of packet events))
              all.numbered,
      payload-packets_of packet events h,
      omega (arith, all.counted, length-packets_of packet events),
      all.dropped,
    )
