-- ===== src/Core/Engine/Threads/Sound.antt =====
-- What the threads of a running engine need to go on: readable packets, and no more messages counted
-- than the array holds.
use winter_square.Common.{
  ℕ, ◌<◌, ◌≤◌, ◌≡◌, sym, ap, ◌∙◌, Bool, true, false, List, [], ◌∷◌, ◌++◌, Option, none, some, arith,
  ltb, length, length-append, length-drop, drop, All, All-append, All-drop, Bool-cases, inl, inr,
}
use winter_square.Core.Parser.{Parser, Parsed, IsParser}
use winter_square.Core.Subscriber.{Subscriber}
use winter_square.Core.Receiver.{Packet, UdpReceiver, receive_round, read_packet}
use winter_square.Core.Receiver.Views.{packet_of}
use winter_square.Core.Engine.Round.{IsReadable}
use winter_square.Core.Engine.Threads.{
  Place, reading, dispatching, posting, Threads, IsAnswer, arrives, receive, find_none, parse_found,
  post_one, count_message, finish_packet, give, pass,
}
use winter_square.Core.Engine.Threads.Steps.{
  Step, receives, finds_none, parses, dispatches, posts, counts, finishes, gives, passes, turns,
}
use winter_square.Core.Engine.Threads.Log.{accepted, asked, asked-append}
use winter_square.Core.Engine.Threads.Holds.{Flows}
use winter_square.Core.Engine.Threads.Packets.{read_packet-some, read_packet-Flows}
use mathlib.Core.Path.{subst}
use mathlib.Core.Option.{some-injective}

packet_of-IsReadable :
    (packet : Packet) (bytes : List ℕ) (now : ℕ)
    → IsReadable packet
    → All (λ b. b < 256) bytes
    → IsReadable (packet_of packet bytes now)
packet_of-IsReadable packet bytes now readable are_bytes = record {
  bytes =
      All-append (λ b. b < 256) bytes (drop (length bytes) packet.content) are_bytes
        (All-drop (λ b. b < 256) (length bytes) packet.content readable.bytes);
  within = omega (arith, length-append bytes (drop (length bytes) packet.content));
}

-- A round of the receiver leaves readable packets.
module _ (r : UdpReceiver) (packet : Packet) (readable : IsReadable packet) where
  receive_round-IsReadable :
      (answer : Option (List ℕ)) (now : ℕ)
      → IsAnswer answer
      → IsReadable (receive_round r packet answer now).1
        × All IsReadable (asked (arrives r packet answer now))
  unfolding receive_round arrives
  receive_round-IsReadable none now is = (readable, tt)
  receive_round-IsReadable (some bytes) now is =
      let got = packet_of-IsReadable packet bytes now readable is.0 in
      elim (Bool-cases (ltb 0 (length bytes))) [
        | inl some_bytes ↦ rw some_bytes (got, (got, tt))
        | inr nothing ↦ rw nothing (
          record {
            bytes = got.bytes;
            within = omega (
              arith,
              length-append bytes (drop (length bytes) packet.content),
              length-drop (length bytes) packet.content,
              readable.within,
            );
          },
          tt,
        )
      ]

accepted-IsReadable :
    (xs : List (Packet × Bool)) → All IsReadable (asked xs) → All IsReadable (accepted xs)
accepted-IsReadable [] h = tt
accepted-IsReadable ((p, true) ∷ xs) h = (h.0, accepted-IsReadable xs h.1)
accepted-IsReadable ((p, false) ∷ xs) h = accepted-IsReadable xs h.1

among : (xs ys : List Packet) (p : Packet) → All IsReadable ((xs ++ p ∷ []) ++ ys) → IsReadable p
among [] ys p h = h.0
among (x ∷ xs) ys p h = among xs ys p h.1

-- The messages counted are in the array.
abbrev pub Sized : Place → ℕ → Type 0
Sized reading n = Unit
Sized (dispatching parse_start count i) n = count ≤ n
Sized (posting parse_start count i now j) n = count ≤ n

-- The buffer of the receiver's thread and every packet received are readable.
pub record SoundParts (packet : Packet) (arrived : List (Packet × Bool)) (place : Place) (n : ℕ)
    : Type 0 where
  pub readable : IsReadable packet
  pub all_readable : All IsReadable (asked arrived)
  pub sized : Sized place n

module _ {P S : Type 0} where
  abbrev pub IsSound : Threads P S → Type 0
  IsSound s = SoundParts s.packet s.history.arrived s.place (length s.messages)

  -- The packet that is read is readable.
  pub current-IsReadable :
      (s : Threads P S)
      → Flows s.engine.receiver.packet_queue s.history.arrived s.history.read
      → IsSound s
      → (read_packet s.engine.receiver s.raw_packet).0 ≡ true
      → IsReadable (read_packet s.engine.receiver s.raw_packet).2.current_packet
  current-IsReadable s f sound got =
      let f' = read_packet-Flows s.engine.receiver s.raw_packet f got in
      among s.history.read _ _
        (subst (All IsReadable) f'.flow (accepted-IsReadable s.history.arrived sound.all_readable))

module _ {P S : Type 0} (parser_ops : Parser P) (subscriber_ops : Subscriber S)
    (law : IsParser parser_ops) where
  -- A packet that is read is parsed, and the array is long enough for its messages.
  pub current_parsed :
      (s : Threads P S) (parser : P)
      → Flows s.engine.receiver.packet_queue s.history.arrived s.history.read
      → IsSound s
      → (read_packet s.engine.receiver s.raw_packet).0 ≡ true
      → (r : Parsed P) × (parser_ops.parse parser
            (read_packet s.engine.receiver s.raw_packet).1
            s.messages
            (length s.messages)
          ≡ some r)
        × (r.0 ≤ length r.1)
  current_parsed s parser f sound got =
      let readable = current-IsReadable s f sound got in
      let (number, view) = read_packet-some s.engine.receiver s.raw_packet got in
      let (r, parsed, few, same) =
        law.safe parser _ _ s.messages (length s.messages) (ap (λ v. v.content) view) readable.bytes
          (rw view readable.within) (omega arith) in
      (r, parsed, rw same few)

  pub Step-IsSound :
      {t : _} {s s' : Threads P S}
      → Step parser_ops subscriber_ops t s s'
      → Flows s.engine.receiver.packet_queue s.history.arrived s.history.read
      → IsSound s
      → IsSound s'
  unfolding receive find_none parse_found post_one count_message finish_packet give pass
  Step-IsSound {s = s} (receives answer now is) f h =
      let (readable, arrived) =
        receive_round-IsReadable s.engine.receiver s.packet h.readable answer now is in
      record {
        readable = readable;
        all_readable =
            rw asked-append
              (All-append IsReadable (asked s.history.arrived) _ h.all_readable arrived);
        sized = h.sized;
      }
  Step-IsSound (finds_none at none_read) f h = h
  Step-IsSound {s = s} (parses parse_start count messages' before after at got set parsed) f h =
      let (r, same, fits) = current_parsed s before f h got in
      let e : r ≡ (count, messages', after) = some-injective _ _ (sym same ∙ parsed) in
      record {
        readable = h.readable;
        all_readable = h.all_readable;
        sized = subst (λ (o : Parsed P). o.0 ≤ length o.1) e fits;
      }
  Step-IsSound (dispatches parse_start count i now at more) f h = record {
    readable = h.readable;
    all_readable = h.all_readable;
    sized = rw at at h.sized;
  }
  Step-IsSound (posts parse_start count i now j m q at message queue) f h = record {
    readable = h.readable;
    all_readable = h.all_readable;
    sized = rw at at h.sized;
  }
  Step-IsSound (counts parse_start count i now m at message) f h = record {
    readable = h.readable;
    all_readable = h.all_readable;
    sized = rw at at h.sized;
  }
  Step-IsSound (finishes parse_start count parse_end at) f h = record {
    readable = h.readable;
    all_readable = h.all_readable;
    sized = tt;
  }
  Step-IsSound (gives subscriber q turn queue got) f h = h
  Step-IsSound (passes subscriber q turn queue none_left) f h = h
  Step-IsSound (turns over) f h = h
