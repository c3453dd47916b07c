-- ===== src/Lib.antt =====
-- Winter Square: from UDP packets of the ITCH 5.0 protocol to the subscribers of normalized
-- messages.
--
-- The program's parts, each with its file here. A receiver thread (core/network/udp_receiver.hpp:
-- Core/Receiver) pushes datagrams into a ring. The engine's thread (core/core_engine.hpp:
-- Core/Engine) pops a packet, has a parser read messages from it into an array, and dispatches each
-- of them: the dispatcher (core/distribution/dispatcher.hpp: Core/Dispatcher) pushes it into one
-- ring for each subscriber (core/distribution/subscriber.hpp: Core/Subscriber), and a third thread
-- pops the rings and calls the subscribers. The rings are `SPSCQueue`
-- (core/distribution/lockfree_queue.hpp: Queue/Spsc, against the bounded FIFO of Queue/Fifo).
-- Parsers implement `IParser` (core/parser/parser_interface.hpp: Core/Parser, with the contract
-- `IsParser`); the one in use reads ITCH (protocols/itch50/itch50_parser.hpp: Itch/Parser,
-- Itch/Handlers; protocols/itch50/itch50_messages.hpp: Itch/Bytes, Itch/Layout, Itch/Messages). The
-- generator of test traffic (examples/itch_generator.cpp) is Itch/Builder, for the bytes, and
-- Itch/Generator, for the loop of its `main`. The subscribers and the main programs of the two
-- examples (examples/itch50_example.cpp, examples/basic_example.cpp) are in Examples, with the test
-- sender (examples/udp_sender.cpp: Examples/UdpSender). The shared data (core/types.hpp) is
-- Core/Types and Core/Statistics. Two parts stand by themselves: `MPSCQueue` of lockfree_queue.hpp
-- (Queue/Mpsc), and the registry of parsers (protocols/common/parser_registry.hpp: Registry).
--
-- State and operations. Each class is a record of its fields, and each method a function from the
-- record and its arguments to its result and the new record, under the method's name in snake case;
-- `SPSCQueue::size` is `count`, since `size` is the template parameter. The bodies of the three
-- thread loops are `receive_round`, `parse_round` and `dispatch_round`: one call is one pass of the
-- loop. The overlap of the threads is modelled twice. Core/Engine/Threads has the three threads of
-- a running engine as a step relation, in which a step is one call on one queue with the local work
-- around it (the `push` of `receive_loop`, `read_packet` and `parse`, each `push` of `dispatch`,
-- the counters after it, each `pop` of `dispatch_loop` with its `on_message`), and the threads
-- interleave in any way. A call on a queue, which has one producer and one consumer, counts as one
-- step there; it is taken apart in the models of the queues: Queue/Spsc/Threads has `push` and
-- `pop` of one producer and one consumer, and Queue/Mpsc those of many producers and one consumer,
-- as step relations in which a step is one load, store or exchange, or the copy of an item, and the
-- threads interleave in any way. Numbers are native; counters wrap as `add_u64` and `sub_u64` say
-- (Common/Word). A pointer into a buffer is the list of bytes from there to the buffer's end, and a
-- read or a write outside a buffer, like a null pointer, gives `none`, so that a theorem that a
-- function returns `some` also says that no access is out of range. An exception is a `thrown`
-- result. A `stop` joins threads that go on meanwhile: what they still do until each `join`
-- returns, or that one does not return, is an argument of it, `Joins` (Core/Engine), and a `stop`
-- that does not return is `none`. What a subscriber prints is kept in its state.
--
-- Bounds and fuel. `parse_loop` has fuel of one more than the packet's length, and each pass takes
-- three bytes at least; `drain` has the size of its queue, which holds fewer items. Both are proved
-- to be enough. Descriptions that the code is compared with are `decode` and `read_message`
-- (Itch/Decode), `read_all` (Itch/Packet/Frames), the messages `Sent` (Itch/Packet/Sent) and the
-- mailboxes of Core/Dispatcher/Mailboxes. `MPSCQueue` needs two nodes at least, and its theorems
-- hold while fewer than 2 ^ 63 places, the nodes included, have been claimed, which is where its
-- signed differences could overflow.
--
-- Not modelled: accesses of two threads that are seen in different orders by different threads,
-- which the memory orders of the queues do not rule out for relaxed loads; the overlap of `start`
-- and `get_stats` with the engine's threads; percentages and prices in print, which are doubles
-- (the operations on doubles of the average latency are arguments); socket calls, whose answers are
-- arguments, and the clock, likewise; names, affinity, command lines, titles, signals and pauses of
-- the main programs of examples/; and the programs of tests/.
pub mod Common
pub mod Core
pub mod Queue
pub mod Itch
pub mod Registry
pub mod Examples
pub mod Tests
