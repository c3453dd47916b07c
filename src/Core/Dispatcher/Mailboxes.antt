-- ===== src/Core/Dispatcher/Mailboxes.antt =====
-- The dispatcher as one mailbox for each subscriber: what `dispatch` posts and what a round delivers.
use winter_square.Common.{
  ℕ, ◌+◌, ◌%◌, ◌^◌, ◌≡◌, refl, ap, ap₂, ◌∙◌, Bool, true, false, List, [], ◌∷◌, ◌++◌, arith, ltb,
  if◌then◌else◌, length,
}
use winter_square.Common.Word.{add_u64}
use winter_square.Core.Types.{NormalizedMessage}
use winter_square.Core.Statistics.{Statistics, update_latency}
use winter_square.Core.Subscriber.{Subscriber}
use winter_square.Core.Dispatcher.{Dispatcher, drop_packet, push_all, dispatch}
use winter_square.Queue.Fifo
use winter_square.Queue.Spsc
use winter_square.Queue.Spsc.{SpscQueue}
use winter_square.Queue.Spsc.Ring.{IsValid, push-IsValid}
use winter_square.Queue.Spsc.Refine.{contents, push_refines}
use winter_square.Queue.Spsc.Client.{capacity-push}

abbrev pub Messages : Type 0
Messages = List NormalizedMessage

abbrev pub MessageQueue : Type 0
MessageQueue = SpscQueue NormalizedMessage

module _ {S : Type 0} where
  -- A subscriber with the messages that wait for it, oldest first.
  abbrev pub mailboxes :
      List S → List (SpscQueue NormalizedMessage) → List (S × List NormalizedMessage)
  mailboxes [] queues = []
  mailboxes (s ∷ subscribers) [] = []
  mailboxes (s ∷ subscribers) (q ∷ queues) = (s, contents q) ∷ mailboxes subscribers queues

  -- Each subscriber has a valid queue for `cap` messages, and there is no other queue.
  abbrev pub Ready : ℕ → List S → List (SpscQueue NormalizedMessage) → Type 0
  Ready cap [] [] = Unit
  Ready cap (s ∷ subscribers) (q ∷ queues) =
      IsValid q × (Spsc.capacity q ≡ cap) × Ready cap subscribers queues
  Ready cap _ _ = ⊥

  -- A message goes to every mailbox that has room.
  unfoldable pub post :
      ℕ → NormalizedMessage → List (S × List NormalizedMessage) → List (S × List NormalizedMessage)
  post cap msg [] = []
  post cap msg ((s, waiting) ∷ boxes) = (s, (Fifo.push cap waiting msg).1) ∷ post cap msg boxes

  -- The mailboxes that have none.
  unfoldable pub full_boxes : ℕ → List (S × List NormalizedMessage) → ℕ
  full_boxes cap [] = 0
  full_boxes cap ((s, waiting) ∷ boxes) =
      (if ltb (length waiting) cap then 0 else 1) + full_boxes cap boxes

-- One queue.
module _ {q : SpscQueue NormalizedMessage} (v : IsValid q) (msg : NormalizedMessage) where
  pushed : (Spsc.push q msg).0 ≡ ltb (length (contents q)) (Spsc.capacity q)
  unfolding Fifo.push
  pushed = ap (λ r. r.0) (push_refines v msg) ∙ answer (ltb (length (contents q)) (Spsc.capacity q))
    where
      answer :
          (b : Bool)
          → (◌≡◌ {A = Bool}
              (if◌then◌else◌ {A = Bool × List NormalizedMessage} b
                (true, contents q ++ msg ∷ [])
                (false, contents q)).0
              b)
      answer true = refl
      answer false = refl

  contents-push : contents (Spsc.push q msg).1 ≡ (Fifo.push (Spsc.capacity q) (contents q) msg).1
  contents-push = ap (λ r. r.1) (push_refines v msg)

-- The counter, if the push had no room.
abbrev tally : Bool → Statistics → Statistics
tally b stats = if b then stats else drop_packet stats

tally_lem :
    (b : Bool) (stats : Statistics)
    → (tally b stats).packets_dropped % 2 ^ 64
      ≡ (stats.packets_dropped + (if b then 0 else 1)) % 2 ^ 64
tally_lem true stats = omega arith
tally_lem false stats = omega arith

tally_others :
    (b : Bool) (stats : Statistics)
    → tally b stats ≡ record stats { packets_dropped = (tally b stats).packets_dropped }
tally_others true stats = refl
tally_others false stats = refl

module _ {S : Type 0} (cap : ℕ) (msg : NormalizedMessage) where
  -- What `push_all` does to the mailboxes and to the counters.
  pub record Posted (subscribers : List S) (queues : List (SpscQueue NormalizedMessage))
      (stats : Statistics) (r : List (SpscQueue NormalizedMessage) × Statistics) : Type 0 where
    pub ready : Ready cap subscribers r.0
    pub boxes : mailboxes subscribers r.0 ≡ post cap msg (mailboxes subscribers queues)
    pub dropped :
        r.1.packets_dropped % 2 ^ 64
        ≡ (stats.packets_dropped + full_boxes cap (mailboxes subscribers queues)) % 2 ^ 64
    pub others : r.1 ≡ record stats { packets_dropped = r.1.packets_dropped }

  push_all-Posted :
      (subscribers : List S) (queues : List (SpscQueue NormalizedMessage)) (stats : Statistics)
      → Ready cap subscribers queues
      → Posted subscribers queues stats (push_all msg queues stats)
  unfolding push_all post full_boxes
  push_all-Posted [] [] stats h = record {
    ready = tt;
    boxes = refl;
    dropped = omega arith;
    others = refl;
  }
  push_all-Posted [] (q ∷ queues) stats h = absurd h
  push_all-Posted (s ∷ subscribers) [] stats h = absurd h
  push_all-Posted (s ∷ subscribers) (q ∷ queues) stats (v, c, h) =
      let answer : (Spsc.push q msg).0 ≡ ltb (length (contents q)) cap =
        pushed v msg ∙ ap (ltb (length (contents q))) c in
      let stats' : Statistics = tally (Spsc.push q msg).0 stats in
      let ih = push_all-Posted subscribers queues stats' h in
      record {
        ready = (push-IsValid msg v, capacity-push q msg ∙ c, ih.ready);
        boxes =
            ap₂ (λ waiting boxes. (s, waiting) ∷ boxes)
              (contents-push v msg ∙ ap (λ k. (Fifo.push k (contents q) msg).1) c) ih.boxes;
        dropped = omega (
          arith,
          ih.dropped,
          tally_lem (Spsc.push q msg).0 stats,
          ap (λ b. if◌then◌else◌ {A = ℕ} b 0 1) answer,
        );
        others =
            ih.others
            ∙ ap {A = Statistics}
                (λ t. record t { packets_dropped = (push_all msg queues stats').1.packets_dropped })
                (tally_others (Spsc.push q msg).0 stats);
      }

  -- If every subscriber has a valid queue for `cap` messages, this is what `dispatch` does: the message
  -- is posted to every mailbox with room, each of the others counts one dropped packet, the message
  -- counts as dispatched, the queues stay valid and the subscribers are not called.
  pub dispatch_posts :
      (now : ℕ) (d : Dispatcher S) (ops : Subscriber S)
      → Ready cap d.subscribers d.queues
      → let d' = dispatch ops now d msg in
        Ready cap d'.subscribers d'.queues
        × (mailboxes d'.subscribers d'.queues ≡ post cap msg (mailboxes d.subscribers d.queues))
        × (d'.stats.packets_dropped % 2 ^ 64
            ≡ (d.stats.packets_dropped + full_boxes cap (mailboxes d.subscribers d.queues))
              % 2 ^ 64)
        × (d'.stats.messages_dispatched ≡ add_u64 d.stats.messages_dispatched 1)
        × (d'.subscribers ≡ d.subscribers)
  unfolding dispatch update_latency
  dispatch_posts now d ops h =
      let p = push_all-Posted d.subscribers d.queues d.stats h in
      (p.ready, p.boxes, p.dropped, ap (λ t. add_u64 t.messages_dispatched 1) p.others, refl)
