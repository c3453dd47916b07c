-- ===== src/Core/Engine/Threads/Socket.antt =====
-- No thread of a running engine stops it or its parts, changes its socket, or takes its parser.
use winter_square.Common.{
  ℕ, ◌≡◌, refl, Bool, true, List, [], ◌∷◌, Option, none, some, ltb, length, Bool-cases, inl, inr,
}
use winter_square.Common.Int.{ℤ}
use winter_square.Core.Types.{MessageView}
use winter_square.Core.Parser.{Parser}
use winter_square.Core.Subscriber.{Subscriber}
use winter_square.Core.Receiver.{Packet, UdpReceiver, receive_round, receive_rest, read_packet}
use winter_square.Core.Engine.{CoreEngine}
use winter_square.Core.Engine.Threads.{
  Threads, receive, find_none, parse_found, post_one, count_message, finish_packet, give, pass,
}
use winter_square.Core.Engine.Threads.Steps.{
  Step, receives, finds_none, parses, dispatches, posts, counts, finishes, gives, passes, turns,
  Reach, here, next,
}
use winter_square.Queue.Spsc

-- A receiver on a socket, that runs or has been told to stop.
pub record IsReceiving (running_is : Bool) (fd : ℤ) (r : UdpReceiver) : Type 0 where
  pub running : r.running ≡ running_is
  pub on_socket : r.socket_fd ≡ fd

receive_round-IsReceiving :
    (b : Bool) (fd : ℤ) (r : UdpReceiver) (packet : Packet) (answer : Option (List ℕ)) (now : ℕ)
    → IsReceiving b fd r
    → IsReceiving b fd (receive_round r packet answer now).0
unfolding receive_round
receive_round-IsReceiving b fd r packet none now h = h
receive_round-IsReceiving b fd r packet (some bytes) now h =
    elim (Bool-cases (ltb 0 (length bytes))) [
      | inl some_bytes ↦ rw some_bytes (record { running = h.running; on_socket = h.on_socket })
      | inr nothing ↦ rw nothing h
    ]

read_packet-IsReceiving :
    (b : Bool) (fd : ℤ) (r : UdpReceiver) (view : MessageView)
    → IsReceiving b fd r
    → IsReceiving b fd (read_packet r view).2
unfolding read_packet
read_packet-IsReceiving b fd r view h =
    elim (Bool-cases (Spsc.pop r.packet_queue r.current_packet).0) [
      | inl got ↦ rw got (record { running = h.running; on_socket = h.on_socket })
      | inr nothing ↦ rw nothing (record { running = h.running; on_socket = h.on_socket })
    ]

pub receive_rest-IsReceiving :
    (b : Bool) (fd : ℤ) (r : UdpReceiver) (packet : Packet) (rounds : List (Option (List ℕ) × ℕ))
    → IsReceiving b fd r
    → IsReceiving b fd (receive_rest r packet rounds)
unfolding receive_rest
receive_rest-IsReceiving b fd r packet [] h = h
receive_rest-IsReceiving b fd r packet ((answer, now) ∷ rounds) h =
    let next_round = receive_round r packet answer now in
    receive_rest-IsReceiving b fd next_round.0 next_round.1 rounds
      (receive_round-IsReceiving b fd r packet answer now h)

module _ {P S : Type 0} where
  -- An engine that runs, or whose `stop` waits for its first thread.
  abbrev pub IsOpen : Bool → ℤ → CoreEngine P S → Type 0
  IsOpen running_is fd e =
      (e.running ≡ running_is)
      × IsReceiving true fd e.receiver
      × (e.dispatcher.running ≡ true)
      × ((p : P) × (e.parser ≡ some p))

  module _ (parser_ops : Parser P) (subscriber_ops : Subscriber S) (b : Bool) (fd : ℤ) where
    Step-IsOpen :
        {t : _} {s s' : Threads P S}
        → Step parser_ops subscriber_ops t s s'
        → IsOpen b fd s.engine
        → IsOpen b fd s'.engine
    unfolding receive find_none parse_found post_one count_message finish_packet give pass
    Step-IsOpen (receives answer now is) h =
        (h.0, receive_round-IsReceiving true fd _ _ answer now h.1, h.2, h.3)
    Step-IsOpen (finds_none at none_read) h =
        (h.0, read_packet-IsReceiving true fd _ _ h.1, h.2, h.3)
    Step-IsOpen (parses parse_start count messages' before after at got set parsed) h =
        (h.0, read_packet-IsReceiving true fd _ _ h.1, h.2, (_, refl))
    Step-IsOpen (dispatches parse_start count i now at more) h = h
    Step-IsOpen (posts parse_start count i now j m q at message queue) h = h
    Step-IsOpen (counts parse_start count i now m at message) h = h
    Step-IsOpen (finishes parse_start count parse_end at) h = h
    Step-IsOpen (gives subscriber q turn queue got) h = h
    Step-IsOpen (passes subscriber q turn queue none_left) h = h
    Step-IsOpen (turns over) h = h

    pub Reach-IsOpen :
        {start s : Threads P S}
        → Reach parser_ops subscriber_ops start s
        → IsOpen b fd start.engine
        → IsOpen b fd s.engine
    Reach-IsOpen here h = h
    Reach-IsOpen (next r step) h = Step-IsOpen step (Reach-IsOpen r h)
