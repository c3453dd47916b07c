-- ===== src/Core/Receiver/Views.antt =====
-- What the receiver's packets carry: payloads, views, and the packets that datagrams make.
use winter_square.Common.{
  ℕ, ◌%◌, ◌^◌, ◌≤◌, ◌≡◌, refl, ap, ap₂, ◌∙◌, List, [], ◌∷◌, ◌++◌, map, some, arith, length, take,
  drop, All,
}
use winter_square.Common.Word.{add_u32}
use winter_square.Core.Types.{MessageView, max_packet_size}
use winter_square.Core.Receiver.{Packet}

-- The bytes that a packet or a view says it has.
abbrev pub payload : Packet → List ℕ
payload p = take p.length p.content

-- The view of a packet that is the `n`th to be read.
abbrev pub view_of : ℕ → Packet → MessageView
view_of n p = record {
  content = some p.content;
  length = p.length;
  timestamp = p.timestamp;
  sequence = n;
}

unfoldable pub views_from : ℕ → List Packet → List MessageView
views_from n [] = []
views_from n (p ∷ ps) = view_of n p ∷ views_from (add_u32 n 1) ps

-- The packet that a datagram makes, over what the local buffer held.
abbrev pub packet_of : Packet → List ℕ → ℕ → Packet
packet_of packet bytes now = record {
  content = bytes ++ drop (length bytes) packet.content;
  length = length bytes % 2 ^ 32;
  timestamp = now;
}

unfoldable pub packets_of : Packet → List (List ℕ × ℕ) → List Packet
packets_of packet [] = []
packets_of packet ((bytes, now) ∷ rest) =
    packet_of packet bytes now ∷ packets_of (packet_of packet bytes now) rest

-- `recvfrom` wrote between one byte and `MAX_PACKET_SIZE`.
abbrev pub IsDatagram : List ℕ × ℕ → Type 0
IsDatagram (bytes, now) = (1 ≤ length bytes) × (length bytes ≤ max_packet_size)

take-length : (bytes rest : List ℕ) → take (length bytes) (bytes ++ rest) ≡ bytes
take-length [] rest = refl
take-length (b ∷ bytes) rest = ap (λ r. b ∷ r) (take-length bytes rest)

-- A packet carries its datagram.
pub payload-packets_of :
    (packet : Packet) (events : List (List ℕ × ℕ))
    → All IsDatagram events
    → map payload (packets_of packet events) ≡ map (λ e. e.0) events
unfolding packets_of
payload-packets_of packet [] h = refl
payload-packets_of packet ((bytes, now) ∷ rest) h =
    ap₂ ◌∷◌
      (ap (λ n. take n (bytes ++ drop (length bytes) packet.content)) (exact bytes h.0.1)
        ∙ take-length bytes (drop (length bytes) packet.content))
      (payload-packets_of (packet_of packet bytes now) rest h.1)
  where
    exact : (b : List ℕ) → length b ≤ 9000 → length b % 2 ^ 32 ≡ length b
    exact b le = omega arith
