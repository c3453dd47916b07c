-- ===== src/Core/Engine/Lifecycle.antt =====
-- The states of `CoreEngine` (core/core_engine.hpp): stopped and running.
use winter_square.Common.{ℕ, ◌≡◌, refl, true, false, List, [], ◌∷◌, map, Option, none, some, ◌>>=◌}
use winter_square.Common.Int.{ℤ, pos, negsuc}
use winter_square.Core.Parser.{Parser}
use winter_square.Core.Subscriber.{Subscriber}
use winter_square.Core.Dispatcher
use winter_square.Core.Dispatcher.{Dispatcher}
use winter_square.Core.Receiver
use winter_square.Core.Receiver.{Packet, UdpReceiver, is_negative, receive_rest}
use winter_square.Core.Engine.Threads.{Threads}
use winter_square.Core.Engine.Threads.Steps.{Reach}
use winter_square.Core.Engine.Threads.Socket.{IsOpen, Reach-IsOpen}
use winter_square.Core.Engine.Joined.{stop-never, halted_rest, stop-closes, stop-joined}
use mathlib.Core.Path.{subst}
use winter_square.Core.Engine.{
  on_parser, CoreEngine, Joins, ok, thrown, cannot_change_parser, cannot_add_subscriber, set_parser,
  add_subscriber, start, stop,
}

module _ {P S : Type 0} (parser_ops : Parser P) (subscriber_ops : Subscriber S) where
  -- An engine that `initialize` left with an open socket, and that is not running.
  pub record IsIdle (fd : ℕ) (e : CoreEngine P S) : Type 0 where
    pub stopped : e.running ≡ false
    pub receiver_stopped : e.receiver.running ≡ false
    pub dispatcher_stopped : e.dispatcher.running ≡ false
    pub open_socket : e.receiver.socket_fd ≡ pos fd
    pub parser : P
    pub configured : e.parser ≡ some parser

  -- What holds of a running engine: its parts run, it takes neither a parser nor a subscriber, and
  -- another `start` changes nothing.
  pub record IsLocked (e : CoreEngine P S) : Type 0 where
    pub running : e.running ≡ true
    pub receiving : e.receiver.running ≡ true
    pub dispatching : e.dispatcher.running ≡ true
    pub keeps_parser :
        (p : Option P) → set_parser parser_ops subscriber_ops e p ≡ thrown cannot_change_parser
    pub keeps_subscribers :
        (size : ℕ) (s : S)
        → add_subscriber parser_ops subscriber_ops size e s ≡ thrown cannot_add_subscriber
    pub started_once : start parser_ops subscriber_ops e ≡ ok e

  -- What `stop` leaves of an engine, of which the threads made `joined` until the parser's thread
  -- ended, and of its dispatcher `dispatcher`: nothing runs, the socket is closed, the parser reset and
  -- every subscriber shut down. Another `stop` changes nothing, and a `start` returns with an engine that
  -- runs while its receiver does not.
  pub record IsStopped (joined : CoreEngine P S) (dispatcher : Dispatcher S) (e : CoreEngine P S)
      : Type 0 where
    pub stopped : e.running ≡ false
    pub receiver_stopped : e.receiver.running ≡ false
    pub dispatcher_stopped : e.dispatcher.running ≡ false
    pub no_socket : e.receiver.socket_fd ≡ negsuc 0
    pub parser : P
    pub parser_was : joined.parser ≡ some parser
    pub parser_reset : e.parser ≡ some (parser_ops.reset parser)
    pub shut_down : e.dispatcher.subscribers ≡ map subscriber_ops.shutdown dispatcher.subscribers
    pub stopped_once : (joins : Joins P S) → stop parser_ops subscriber_ops e joins ≡ some (e, [])
    pub restarts_deaf :
        (e' : CoreEngine P S) × (start parser_ops subscriber_ops e ≡ ok e')
        × (e'.running ≡ true)
        × (e'.receiver.running ≡ false)

  -- The engine after `start`.
  abbrev pub started : CoreEngine P S → CoreEngine P S
  started e = record e {
    running = true;
    receiver = record e.receiver { running = true };
    dispatcher = record e.dispatcher {
      subscribers = map subscriber_ops.initialize e.dispatcher.subscribers;
      running = true;
    };
  }

  -- Steps of the threads lead from one engine to another.
  abbrev pub Makes : CoreEngine P S → CoreEngine P S → Type 0
  Makes e e' =
      (s : Threads P S) × (s' : Threads P S) × (s.engine ≡ e)
      × (s'.engine ≡ e')
      × Reach parser_ops subscriber_ops s s'

  -- The parser's thread and the dispatcher's thread end when `stop` waits for them.
  pub record Return (joins : Joins P S) (e : CoreEngine P S) : Type 0 where
    pub joined : CoreEngine P S
    pub parse_returns : joins.parse_joined (record e { running = false }) ≡ some joined
    pub made : Makes (record e { running = false }) joined
    pub dispatcher : Dispatcher S
    pub dispatch_returns :
        joins.dispatch_joined (record joined.dispatcher { running = false }) ≡ some dispatcher
    pub still_stopped : dispatcher.running ≡ false

  -- How a `stop` goes on, given what the receiver's thread still does.
  abbrev pub Stops :
      Option (List (Option (List ℕ) × ℕ))
      → ℤ
      → CoreEngine P S
      → Dispatcher S
      → Option (CoreEngine P S × List ℤ)
      → Type 0
  Stops none fd joined dispatcher r = r ≡ none
  Stops (some rounds) fd joined dispatcher r =
      (e : CoreEngine P S) × (r ≡ some (e, fd ∷ [])) × IsStopped joined dispatcher e

  pub IsOpen-IsLocked : {fd : ℤ} (e : CoreEngine P S) → IsOpen true fd e → IsLocked e
  unfolding start set_parser add_subscriber
  IsOpen-IsLocked e o = record {
    running = o.0;
    receiving = o.1.running;
    dispatching = o.2;
    keeps_parser = λ p. rw o.0 refl;
    keeps_subscribers = λ size s. rw o.0 refl;
    started_once = rw o.0 refl;
  }

  -- What is left of a `stop` when the dispatcher's thread has been joined.
  abbrev stop_receiver :
      CoreEngine P S
      → Dispatcher S
      → Packet
      → Option (List (Option (List ℕ) × ℕ))
      → Option (CoreEngine P S × List ℤ)
  stop_receiver joined dispatcher packet rounds = do
    (receiver, closed) ← Receiver.stop joined.receiver packet rounds
    some (
      record joined {
        receiver = receiver;
        dispatcher = record dispatcher {
          subscribers = map subscriber_ops.shutdown dispatcher.subscribers;
        };
        parser = on_parser parser_ops subscriber_ops parser_ops.reset joined.parser;
      },
      closed,
    )

  receiver-Stops :
      (fd : ℤ) (joined : CoreEngine P S) (dispatcher : Dispatcher S) (packet : Packet)
      → dispatcher.running ≡ false
      → is_negative fd ≡ false
      → IsOpen false fd joined
      → (rounds : Option (List (Option (List ℕ) × ℕ)))
      → Stops rounds fd joined dispatcher (stop_receiver joined dispatcher packet rounds)
  unfolding start stop Receiver.start Dispatcher.start
  receiver-Stops fd joined dispatcher packet still valid o none =
      rw (stop-never joined.receiver packet o.1.running) refl
  receiver-Stops fd joined dispatcher packet still valid o (some rounds) =
      let last = halted_rest fd joined.receiver packet rounds o.1 in
      rw (stop-closes fd joined.receiver packet rounds valid o.1) (
        _,
        refl,
        record {
          stopped = o.0;
          receiver_stopped = last.running;
          dispatcher_stopped = still;
          no_socket = refl;
          parser = o.3.0;
          parser_was = o.3.1;
          parser_reset = rw o.3.1 refl;
          shut_down = refl;
          stopped_once = λ joins. rw o.0 refl;
          restarts_deaf = rw (o.0, last.running, o.3.1) (_, refl, refl, refl);
        },
      )

  pub stop-Stops :
      (fd : ℤ) (e : CoreEngine P S) (joins : Joins P S) (returns : Return joins e)
      → is_negative fd ≡ false
      → IsOpen true fd e
      → Stops joins.receive_rounds fd returns.joined returns.dispatcher
          (stop parser_ops subscriber_ops e joins)
  unfolding stop
  stop-Stops fd e joins returns valid o =
      let (s, s', begins, ends, r) = returns.made in
      let waits : IsOpen false fd s.engine = rw begins (refl, o.1, o.2, o.3) in
      let joined : IsOpen false fd returns.joined =
        subst (IsOpen false fd) ends (Reach-IsOpen parser_ops subscriber_ops false fd r waits) in
      rw
        (
          o.0,
          returns.parse_returns,
          stop-joined subscriber_ops returns.joined.dispatcher returns.dispatcher
              joins.dispatch_joined joined.2 returns.dispatch_returns,
        )
        (receiver-Stops fd returns.joined returns.dispatcher joins.packet returns.still_stopped
          valid joined joins.receive_rounds)

  -- An engine that was initialized, has a parser and does not run starts, with all its parts, and is
  -- locked in every state that its threads lead it to. If there the parser's and the dispatcher's
  -- threads end when `stop` waits for them, `stop` does not return if the receiver's thread stays in
  -- `recvfrom`; otherwise it closes the socket, once, resets the parser and shuts every subscriber
  -- down, and a `start` of what is left runs the engine with a receiver that does not run.
  pub start-stop :
      (fd : ℕ) (e : CoreEngine P S) (s s' : Threads P S) (joins : Joins P S)
      (returns : Return joins s'.engine)
      → IsIdle fd e
      → s.engine ≡ started e
      → Reach parser_ops subscriber_ops s s'
      → (start parser_ops subscriber_ops e ≡ ok (started e))
        × IsLocked s'.engine
        × Stops joins.receive_rounds
            (pos fd)
            returns.joined
            returns.dispatcher
            (stop parser_ops subscriber_ops s'.engine joins)
  unfolding start Receiver.start Dispatcher.start
  start-stop fd e s s' joins returns idle begins r =
      let open_start : IsOpen true (pos fd) s.engine = rw begins (
        refl,
        record { running = refl; on_socket = idle.open_socket },
        refl,
        (idle.parser, idle.configured),
      ) in
      let open_now : IsOpen true (pos fd) s'.engine =
        Reach-IsOpen parser_ops subscriber_ops true (pos fd) r open_start in
      (
        rw
            (
              idle.stopped, idle.configured, idle.receiver_stopped, idle.open_socket,
              idle.dispatcher_stopped,
            )
            refl,
        IsOpen-IsLocked s'.engine open_now,
        stop-Stops (pos fd) s'.engine joins returns refl open_now,
      )
