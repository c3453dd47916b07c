-- ===== src/Core/Engine/Threads.antt =====
-- The three threads of a running engine, interleaved: `receive_loop` (core/network/udp_receiver.hpp),
-- `parse_loop` (core/core_engine.hpp) with the loop of `dispatch` inside, and `dispatch_loop`
-- (core/distribution/dispatcher.hpp). A step is one call on one queue with the local work around it:
-- each queue has one producer and one consumer, so that a call on it may count as one step.
-- The rounds are those of threads that are running.
pub mod Steps
pub mod Log
pub mod Holds
mod Flow
mod Packets
mod Keep
mod Post
mod Give
pub mod Delivered
mod Sound
pub mod Progress
pub mod Socket
pub mod Tally
mod Counted
pub mod Counters
use winter_square.Common.{
  ℕ, ◌+◌, ◌<◌, ◌≤◌, ◌≡◌, Bool, true, false, List, [], ◌∷◌, ◌++◌, Option, none, some, ltb,
  if◌then◌else◌, length, take, get_elem?, set, set_entry, All,
}
use winter_square.Common.Word.{add_u64, sub_u64}
use winter_square.Core.Types.{MessageView, NormalizedMessage, max_packet_size}
use winter_square.Core.Statistics.{update_latency}
use winter_square.Core.Parser.{Parser}
use winter_square.Core.Subscriber.{Subscriber}
use winter_square.Core.Dispatcher.{Dispatcher, drop_packet}
use winter_square.Core.Dispatcher.Mailboxes.{MessageQueue}
use winter_square.Core.Receiver
use winter_square.Core.Receiver.{Packet, UdpReceiver}
use winter_square.Core.Engine.{CoreEngine, count_packet}
use winter_square.Queue.Spsc

-- Where `parse_loop` is: before `read_packet`; before the `i`th test of its `for` loop; in the `i`th
-- call of `dispatch`, made at `now`, before the test of its loop over the queues at the `j`th.
pub data Place : Type 0 where
  reading : Place
  dispatching : (parse_start count i : ℕ) → Place
  posting : (parse_start count i now j : ℕ) → Place

-- What has happened, oldest first: the packets received and the messages posted to each queue, with
-- the answers of `push`; the packets read, the messages parsed, and those given to each subscriber.
pub record History : Type 0 where
  pub arrived : List (Packet × Bool)
  pub read : List Packet
  pub parsed : List NormalizedMessage
  pub offered : ℕ → List (NormalizedMessage × Bool)
  pub given : ℕ → List NormalizedMessage

-- `packet` is the local of `receive_loop`, `raw_packet` and `messages` are those of `parse_loop`, `msg`
-- and `turn` (its `i`) those of `dispatch_loop`.
pub record Threads (P S : Type 0) : Type 0 where
  pub engine : CoreEngine P S
  pub packet : Packet
  pub raw_packet : MessageView
  pub messages : List NormalizedMessage
  pub place : Place
  pub msg : NormalizedMessage
  pub turn : ℕ
  pub history : History

pub data Thread : Type 0 where
  receiver_thread engine_thread dispatcher_thread : Thread

-- `recvfrom` fails, or returns at most as many bytes as the buffer has.
abbrev pub IsAnswer : Option (List ℕ) → Type 0
IsAnswer none = Unit
IsAnswer (some bytes) = All (λ b. b < 256) bytes × (length bytes ≤ max_packet_size)

-- The answer of `push` to what `receive_loop` has received, if it was a packet.
unfoldable pub arrives : UdpReceiver → Packet → Option (List ℕ) → ℕ → List (Packet × Bool)
arrives r packet none now = []
arrives r packet (some bytes) now =
    let (r', packet') = Receiver.receive_round r packet (some bytes) now in
    if ltb 0 (length bytes) then (packet', (Spsc.push r.packet_queue packet').0) ∷ [] else []

module _ {P S : Type 0} where
  abbrev pub queues : Threads P S → List MessageQueue
  queues s = s.engine.dispatcher.queues

  abbrev pub subscribers : Threads P S → List S
  subscribers s = s.engine.dispatcher.subscribers

  -- The engine has been started, and no thread has done anything.
  unfoldable pub begin :
      CoreEngine P S
      → Packet
      → MessageView
      → List NormalizedMessage
      → NormalizedMessage
      → Threads P S
  begin e packet raw_packet messages msg = record {
    engine = e;
    packet = packet;
    raw_packet = raw_packet;
    messages = messages;
    place = reading;
    msg = msg;
    turn = 0;
    history = record { arrived = []; read = []; parsed = []; offered = λ k. []; given = λ k. [] };
  }

  unfoldable pub receive : Threads P S → Option (List ℕ) → ℕ → Threads P S
  unfolding arrives
  receive s answer now =
      let (receiver, packet) = Receiver.receive_round s.engine.receiver s.packet answer now in
      record s {
        engine = record s.engine { receiver = receiver };
        packet = packet;
        history = record s.history {
          arrived = s.history.arrived ++ arrives s.engine.receiver s.packet answer now;
        };
      }

  -- `read_packet`, and what is parsed of the packet when there was one.
  unfoldable pub find_none : Threads P S → Threads P S
  find_none s =
      let (got, view, receiver) = Receiver.read_packet s.engine.receiver s.raw_packet in
      record s { engine = record s.engine { receiver = receiver }; raw_packet = view }

  unfoldable pub parse_found : Threads P S → ℕ → ℕ → List NormalizedMessage → P → Threads P S
  parse_found s parse_start count messages parser =
      let (got, view, receiver) = Receiver.read_packet s.engine.receiver s.raw_packet in
      record s {
        engine = record s.engine { receiver = receiver; parser = some parser };
        raw_packet = view;
        messages = messages;
        place = dispatching parse_start count 0;
        history = record s.history {
          read = s.history.read ++ receiver.current_packet ∷ [];
          parsed = s.history.parsed ++ take count messages;
        };
      }

  -- `if (!queue->push(msg)) stats_.packets_dropped++` on the `j`th queue.
  unfoldable pub post_one :
      Threads P S → ℕ → ℕ → ℕ → ℕ → ℕ → NormalizedMessage → MessageQueue → Threads P S
  post_one s parse_start count i now j m q =
      let (pushed, q') = Spsc.push q m in
      let d = s.engine.dispatcher in
      record s {
        engine = record s.engine {
          dispatcher = record d {
            queues = set d.queues j q';
            stats = if pushed then d.stats else drop_packet d.stats;
          };
        };
        place = posting parse_start count i now (j + 1);
        history = record s.history {
          offered = set_entry j (s.history.offered j ++ (m, pushed) ∷ []) s.history.offered;
        };
      }

  -- The counters at the end of `dispatch`.
  unfoldable pub count_message : Threads P S → ℕ → ℕ → ℕ → ℕ → NormalizedMessage → Threads P S
  count_message s parse_start count i now m =
      let d = s.engine.dispatcher in
      let counted = record d.stats {
        messages_dispatched = add_u64 d.stats.messages_dispatched 1;
      } in
      record s {
        engine = record s.engine {
          dispatcher = record d { stats = update_latency counted (sub_u64 now m.local_timestamp) };
        };
        place = dispatching parse_start count (i + 1);
      }

module _ {P S : Type 0} (parser_ops : Parser P) (subscriber_ops : Subscriber S) where
  -- The counters after the `for` loop of `parse_loop`.
  unfoldable pub finish_packet : Threads P S → ℕ → ℕ → ℕ → Threads P S
  finish_packet s parse_start count parse_end = record s {
    engine = record s.engine {
      stats =
          count_packet parser_ops subscriber_ops s.engine.stats count
            (sub_u64 parse_end parse_start);
    };
    place = reading;
  }

  -- `queue->pop(msg)` of the subscriber whose turn it is, and `on_message` when there was one.
  unfoldable pub give : Threads P S → S → MessageQueue → Threads P S
  give s subscriber q =
      let (popped, m, q') = Spsc.pop q s.msg in
      let d = s.engine.dispatcher in
      record s {
        engine = record s.engine {
          dispatcher = record d {
            queues = set d.queues s.turn q';
            subscribers = set d.subscribers s.turn (subscriber_ops.on_message subscriber m).1;
          };
        };
        msg = m;
        history = record s.history {
          given = set_entry s.turn (s.history.given s.turn ++ m ∷ []) s.history.given;
        };
      }

  unfoldable pub pass : Threads P S → MessageQueue → Threads P S
  pass s q =
      let (popped, m, q') = Spsc.pop q s.msg in
      record s {
        engine = record s.engine {
          dispatcher = record s.engine.dispatcher { queues = set (queues s) s.turn q' };
        };
        msg = m;
        turn = s.turn + 1;
      }
