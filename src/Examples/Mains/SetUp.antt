-- ===== src/Examples/Mains/SetUp.antt =====
-- How the `main`s of the examples end their set-up.
use winter_square.Common.{
  ℕ, ◌≡◌, refl, ap, ◌∙◌, Bool, true, false, ◌||◌, List, [], ◌∷◌, map, some, Bool-cases, inl, inr,
  if◌then◌else◌,
}
use winter_square.Common.Int.{ℤ}
use winter_square.Core.Dispatcher
use winter_square.Core.Receiver
use winter_square.Core.Receiver.{SocketAnswers, is_negative}
use winter_square.Core.Engine
use winter_square.Core.Engine.{CoreEngine, EngineError, Result, ok, thrown}
use winter_square.Core.Engine.Lifecycle.{IsLocked}
use winter_square.Core.Engine.Threads.Socket.{IsOpen}
use winter_square.Itch.Parser.{initial}
use winter_square.Examples.OrderBook
use winter_square.Examples.Printer
use winter_square.Examples.Totals
use winter_square.Examples.Mains.{
  AnyParser, echo, itch, any_parser, AnySubscriber, printer, order_book, totals, any_subscriber,
  Launch, exit_one, runs, launch, basic_main, itch50_main,
}

module _ (clock : ℕ → ℕ) where
  -- What a `main` runs: a locked engine with its parser and its subscribers, each with an empty queue.
  pub record IsLaunched (answers : SocketAnswers) (parser : AnyParser)
      (subscribers : List AnySubscriber) (l : Launch clock) : Type 0 where
    pub engine : CoreEngine AnyParser AnySubscriber
    pub running : l ≡ runs engine
    pub locked : IsLocked any_parser (any_subscriber clock) engine
    pub socket_open : IsOpen true answers.socket_answer engine
    pub valid_socket : is_negative answers.socket_answer ≡ false
    pub with_parser : engine.parser ≡ some parser
    pub with_subscribers : engine.dispatcher.subscribers ≡ subscribers

  -- `socket`, `bind` or the `setsockopt` that joins the group fails. The answers of the other
  -- `setsockopt`s change nothing.
  abbrev pub cannot_open : SocketAnswers → Bool
  cannot_open answers =
      is_negative answers.socket_answer
      || (is_negative answers.bind_answer || is_negative answers.join_answer)

  -- The socket, if there was one.
  abbrev pub opened : SocketAnswers → List ℤ
  opened answers = if is_negative answers.socket_answer then [] else answers.socket_answer ∷ []

  abbrev pub Ends : Bool → SocketAnswers → AnyParser → List AnySubscriber → Launch clock → Type 0
  Ends true answers parser subscribers l = l ≡ exit_one (opened answers)
  Ends false answers parser subscribers l = IsLaunched answers parser subscribers l

  map-same : (xs : List AnySubscriber) → map (λ s. s) xs ≡ xs
  map-same [] = refl
  map-same (x ∷ xs) = ap (λ r. x ∷ r) (map-same xs)

  -- An engine that is set up, and does not run.
  record IsSetUp (parser : AnyParser) (subscribers : List AnySubscriber)
      (e : CoreEngine AnyParser AnySubscriber) : Type 0 where
    stopped : e.running ≡ false
    receiver_stopped : e.receiver.running ≡ false
    dispatcher_stopped : e.dispatcher.running ≡ false
    configured : e.parser ≡ some parser
    subscribed : e.dispatcher.subscribers ≡ subscribers

  -- `launch` of an engine that is set up, when the socket is opened, bound and joined to the group.
  module _ {parser : AnyParser} {subscribers : List AnySubscriber} (answers : SocketAnswers)
      (e : CoreEngine AnyParser AnySubscriber) (set : IsSetUp parser subscribers e) where
    abbrev started : CoreEngine AnyParser AnySubscriber
    started = record e {
      running = true;
      receiver = record e.receiver { running = true; socket_fd = answers.socket_answer };
      parser = some parser;
      dispatcher = record e.dispatcher {
        subscribers = map (λ s. s) e.dispatcher.subscribers;
        running = true;
      };
    }

    launch-started :
        is_negative answers.socket_answer ≡ false
        → (is_negative answers.bind_answer || is_negative answers.join_answer) ≡ false
        → launch clock answers e ≡ runs started
    unfolding launch Engine.initialize Engine.start Receiver.initialize Receiver.start
        Dispatcher.start
    launch-started open_socket fine =
        rw
          (
            open_socket, fine, set.stopped, set.configured, set.receiver_stopped,
            set.dispatcher_stopped, open_socket,
          )
          refl

    launch-exit_one :
        cannot_open answers ≡ true → launch clock answers e ≡ exit_one (opened answers)
    unfolding launch Engine.initialize Receiver.initialize
    launch-exit_one bad = elim (Bool-cases (is_negative answers.socket_answer)) [
      | inl closed ↦ rw closed refl
      | inr open_socket ↦ rw (open_socket, (rw open_socket at bad)) refl
    ]

    started-IsLocked : IsLocked any_parser (any_subscriber clock) started
    unfolding Engine.start Engine.set_parser Engine.add_subscriber
    started-IsLocked = record {
      running = refl;
      receiving = refl;
      dispatching = refl;
      keeps_parser = λ p. refl;
      keeps_subscribers = λ size s. refl;
      started_once = refl;
    }

    launch-Ends : Ends (cannot_open answers) answers parser subscribers (launch clock answers e)
    launch-Ends = elim (Bool-cases (is_negative answers.socket_answer)) [
      | inl bad ↦ rw bad (launch-exit_one (rw bad refl))
      | inr open_socket ↦
          elim (Bool-cases (is_negative answers.bind_answer || is_negative answers.join_answer)) [
            | inl bad ↦ rw (open_socket, bad) (launch-exit_one (rw (open_socket, bad) refl))
            | inr fine ↦
                rw (open_socket, fine)
                  (record {
                    engine = started;
                    running = launch-started open_socket fine;
                    locked = started-IsLocked;
                    socket_open =
                        (refl, record { running = refl; on_socket = refl }, refl, (parser, refl));
                    valid_socket = open_socket;
                    with_parser = refl;
                    with_subscribers = map-same e.dispatcher.subscribers ∙ set.subscribed;
                  })
          ]
    ]

  -- Neither `main` throws. If `socket`, `bind` or the `setsockopt` that joins the group fails, both exit with
  -- code 1, and the socket, if there was one, is closed. Otherwise the basic
  -- example runs an engine with the default parser and a printing subscriber, and the ITCH example
  -- one with an ITCH parser, an order book for its filter and a statistics subscriber.
  pub mains_launch :
      (instrument_filter : ℕ) (answers : SocketAnswers)
      → Ends
          (cannot_open answers)
          answers
          (echo 0)
          (printer Printer.fresh ∷ [])
          (basic_main clock answers)
        × Ends
            (cannot_open answers)
            answers
            (itch initial)
            (order_book (OrderBook.fresh instrument_filter) ∷ totals (Totals.fresh clock) ∷ [])
            (itch50_main clock instrument_filter answers)
  unfolding basic_main itch50_main Engine.fresh Engine.set_parser Engine.add_subscriber
      Dispatcher.add_subscriber Receiver.fresh
  mains_launch instrument_filter answers = (
    launch-Ends answers _ (record {
      stopped = refl;
      receiver_stopped = refl;
      dispatcher_stopped = refl;
      configured = refl;
      subscribed = refl;
    }),
    launch-Ends answers _ (record {
      stopped = refl;
      receiver_stopped = refl;
      dispatcher_stopped = refl;
      configured = refl;
      subscribed = refl;
    }),
  )
