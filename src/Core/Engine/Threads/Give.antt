-- ===== src/Core/Engine/Threads/Give.antt =====
-- The steps of the dispatcher's thread keep what holds of a running engine's threads.
use winter_square.Common.{
  ℕ, ◌≡◌, refl, sym, ◌∙◌, true, false, [], ◌∷◌, ◌++◌, some, get_elem?, length-set, ==-yes, ==-no,
  inl, inr,
}
use winter_square.Core.Types.{NormalizedMessage}
use winter_square.Core.Parser.{Parser}
use winter_square.Core.Subscriber.{Subscriber}
use winter_square.Core.Dispatcher.Mailboxes.{Messages, MessageQueue}
use winter_square.Core.Dispatcher.Delivery.{deliver}
use winter_square.Core.Engine.{CoreEngine}
use winter_square.Core.Engine.Threads.{Threads, queues, subscribers, give, pass}
use winter_square.Core.Engine.Threads.Log.{pending, set_cases}
use winter_square.Core.Engine.Threads.Holds.{Serves, Holds}
use winter_square.Core.Engine.Threads.Flow.{pop-Flows, pop_none-Flows}
use winter_square.Queue.Spsc

module _ {S : Type 0} (ops : Subscriber S) where
  deliver-snoc :
      (first : S) (ms : Messages) (m : NormalizedMessage)
      → deliver ops first (ms ++ m ∷ []) ≡ (ops.on_message (deliver ops first ms) m).1
  unfolding deliver
  deliver-snoc first [] m = refl
  deliver-snoc first (x ∷ ms) m = deliver-snoc (ops.on_message first x).1 ms m

module _ {P S : Type 0} (parser_ops : Parser P) (subscriber_ops : Subscriber S)
    (start : CoreEngine P S) (parser : P) (messages : Messages) (s : Threads P S)
    (h : Holds parser_ops subscriber_ops start parser messages s) (subscriber : S)
    (q : MessageQueue) (turn : get_elem? (subscribers s) s.turn ≡ some subscriber)
    (queue : get_elem? (queues s) s.turn ≡ some q) where
  abbrev given : Threads P S
  given = give parser_ops subscriber_ops s subscriber q

  abbrev passed : Threads P S
  passed = pass parser_ops subscriber_ops s q

  module _ (got : (Spsc.pop q s.msg).0 ≡ true) where
    give-Serves :
        (k : ℕ) (y : MessageQueue)
        → get_elem? (queues given) k ≡ some y
        → Serves y
            (given.history.offered k)
            (given.history.given k)
            (pending given.place given.messages k)
            given.history.parsed
    unfolding give
    give-Serves k y here = elim (set_cases (queues s) s.turn k (Spsc.pop q s.msg).2 here) [
      | inl (same, this) ↦
          let old = h.served s.turn q queue in
          rw (← same, ← this, ==-yes refl)
            (record { flows = pop-Flows old.flows s.msg got; offers = old.offers })
      | inr (other, before) ↦ rw (==-no other) (h.served k y before)
    ]

    give-delivered :
        (k : ℕ) (y : S)
        → get_elem? (subscribers given) k ≡ some y
        → (first : S) × (get_elem? start.dispatcher.subscribers k ≡ some first)
          × (y ≡ deliver subscriber_ops first (given.history.given k))
    unfolding give
    give-delivered k y here = elim (set_cases (subscribers s) s.turn k _ here) [
      | inl (same, this) ↦
          let (first, there, old) = h.delivered s.turn subscriber turn in
          (first, rw (← same) there, rw (← same, ← this, ==-yes refl, deliver-snoc, ← old) refl)
      | inr (other, before) ↦ rw (==-no other) (h.delivered k y before)
    ]

    pub give-Holds :
        Holds parser_ops subscriber_ops start parser messages
          (give parser_ops subscriber_ops s subscriber q)
    unfolding give
    give-Holds = record {
      packets = h.packets;
      taken = h.taken;
      placed = rw (length-set (queues s) s.turn) h.placed;
      paired =
          length-set (queues s) s.turn _ ∙ h.paired ∙ sym (length-set (subscribers s) s.turn _);
      served = give-Serves;
      delivered = give-delivered;
    }

  module _ (none_left : (Spsc.pop q s.msg).0 ≡ false) where
    pass-Serves :
        (k : ℕ) (y : MessageQueue)
        → get_elem? (queues passed) k ≡ some y
        → Serves y
            (passed.history.offered k)
            (passed.history.given k)
            (pending passed.place passed.messages k)
            passed.history.parsed
    unfolding pass
    pass-Serves k y here = elim (set_cases (queues s) s.turn k (Spsc.pop q s.msg).2 here) [
      | inl (same, this) ↦
          let old = h.served s.turn q queue in
          rw (← same, ← this)
            (record { flows = pop_none-Flows old.flows s.msg none_left; offers = old.offers })
      | inr (other, before) ↦ h.served k y before
    ]

    pub pass-Holds :
        Holds parser_ops subscriber_ops start parser messages (pass parser_ops subscriber_ops s q)
    unfolding pass
    pass-Holds = record {
      packets = h.packets;
      taken = h.taken;
      placed = rw (length-set (queues s) s.turn) h.placed;
      paired = length-set (queues s) s.turn _ ∙ h.paired;
      served = pass-Serves;
      delivered = h.delivered;
    }
