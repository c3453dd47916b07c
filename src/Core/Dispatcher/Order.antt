-- ===== src/Core/Dispatcher/Order.antt =====
-- From `dispatch` to the subscribers: while the queues have room nothing is lost or reordered.
use winter_square.Common.{
  ℕ, suc, ◌+◌, ◌%◌, ◌^◌, ◌≤◌, ◌≡◌, refl, sym, ap, ap₂, ◌∙◌, Bool, List, [], ◌∷◌, ◌++◌, map, some,
  arith, lt→ltb, length, length-append,
}
use winter_square.Core.Types.{NormalizedMessage}
use winter_square.Core.Subscriber.{Subscriber}
use winter_square.Core.Dispatcher.{Dispatcher, dispatch, dispatch_round}
use winter_square.Core.Dispatcher.Mailboxes.{
  Messages, mailboxes, Ready, post, full_boxes, dispatch_posts,
}
use winter_square.Core.Dispatcher.Delivery.{deliver_all, dispatch_round_delivers}
use winter_square.Queue.Fifo
use mathlib.Core.List.{append_assoc, append-nil}

module _ {S : Type 0} where
  -- Every mailbox has room for `k` more messages.
  abbrev pub HasRoom : ℕ → ℕ → List (S × List NormalizedMessage) → Type 0
  HasRoom cap k [] = Unit
  HasRoom cap k ((s, waiting) ∷ boxes) = (length waiting + k ≤ cap) × HasRoom cap k boxes

  -- Messages behind those that wait already.
  unfoldable pub append_all :
      List NormalizedMessage → List (S × List NormalizedMessage) → List (S × List NormalizedMessage)
  append_all ms [] = []
  append_all ms ((s, waiting) ∷ boxes) = (s, waiting ++ ms) ∷ append_all ms boxes

  append_all-nil : (boxes : List (S × Messages)) → append_all [] boxes ≡ boxes
  unfolding append_all
  append_all-nil [] = refl
  append_all-nil ((s, waiting) ∷ boxes) =
      ap₂ (λ w bs. (s, w) ∷ bs) (append-nil waiting) (append_all-nil boxes)

  append_all_twice :
      (m : NormalizedMessage) (ms : Messages) (boxes : List (S × Messages))
      → append_all ms (append_all (m ∷ []) boxes) ≡ append_all (m ∷ ms) boxes
  unfolding append_all
  append_all_twice m ms [] = refl
  append_all_twice m ms ((s, waiting) ∷ boxes) =
      ap₂ (λ w bs. (s, w) ∷ bs) (append_assoc waiting (m ∷ []) ms) (append_all_twice m ms boxes)

  module _ (cap k : ℕ) (m : NormalizedMessage) where
    post_room :
        (boxes : List (S × Messages))
        → HasRoom cap (suc k) boxes
        → post cap m boxes ≡ append_all (m ∷ []) boxes
    unfolding post append_all Fifo.push
    post_room [] h = refl
    post_room ((s, waiting) ∷ boxes) h =
        rw (lt→ltb (length waiting) cap (omega arith))
          (ap (λ bs. (s, waiting ++ m ∷ []) ∷ bs) (post_room boxes h.1))

    full_room : (boxes : List (S × Messages)) → HasRoom cap (suc k) boxes → full_boxes cap boxes ≡ 0
    unfolding full_boxes
    full_room [] h = refl
    full_room ((s, waiting) ∷ boxes) h =
        rw (lt→ltb (length waiting) cap (omega arith)) (omega (arith, full_room boxes h.1))

    append_room :
        (boxes : List (S × Messages))
        → HasRoom cap (suc k) boxes
        → HasRoom cap k (append_all (m ∷ []) boxes)
    unfolding append_all
    append_room [] h = tt
    append_room ((s, waiting) ∷ boxes) h =
        (omega (arith, length-append waiting (m ∷ [])), append_room boxes h.1)

  module _ (ops : Subscriber S) where
    -- Calls of `dispatch`, each with the time at which it is made.
    unfoldable pub dispatch_each : Dispatcher S → List (ℕ × NormalizedMessage) → Dispatcher S
    dispatch_each d [] = d
    dispatch_each d ((now, m) ∷ calls) = dispatch_each (dispatch ops now d m) calls

    abbrev pub messages : List (ℕ × NormalizedMessage) → Messages
    messages = map (λ c. c.1)

    -- What the calls have done.
    pub record Queued (cap : ℕ) (d d' : Dispatcher S) (calls : List (ℕ × NormalizedMessage))
        : Type 0 where
      pub ready : Ready cap d'.subscribers d'.queues
      pub boxes :
          mailboxes d'.subscribers d'.queues
          ≡ append_all (messages calls) (mailboxes d.subscribers d.queues)
      pub kept : d'.stats.packets_dropped % 2 ^ 64 ≡ d.stats.packets_dropped % 2 ^ 64

    pub dispatch_each-Queued :
        (cap : ℕ) (calls : List (ℕ × NormalizedMessage)) (d : Dispatcher S)
        → Ready cap d.subscribers d.queues
        → HasRoom cap (length calls) (mailboxes d.subscribers d.queues)
        → Queued cap d (dispatch_each d calls) calls
    unfolding dispatch_each
    dispatch_each-Queued cap [] d h room = record {
      ready = h;
      boxes = sym (append_all-nil (mailboxes d.subscribers d.queues));
      kept = refl;
    }
    dispatch_each-Queued cap ((now, m) ∷ calls) d h room =
        let d' : Dispatcher S = dispatch ops now d m in
        let boxes = mailboxes d.subscribers d.queues in
        let (ready, posted, dropped, _, _) = dispatch_posts cap m now d ops h in
        let step : mailboxes d'.subscribers d'.queues ≡ append_all (m ∷ []) boxes =
          posted ∙ post_room cap (length calls) m boxes room in
        let ih =
          dispatch_each-Queued cap calls d' ready
            (rw step (append_room cap (length calls) m boxes room)) in
        record {
          ready = ih.ready;
          boxes =
              ih.boxes
              ∙ ap (append_all (messages calls)) step
              ∙ append_all_twice m (messages calls) boxes;
          kept = omega (arith, ih.kept, dropped, full_room cap (length calls) m boxes room);
        }

    -- If every queue is valid and has room for the messages of the calls, then the calls and a round of the
    -- dispatch loop give every subscriber what waited for it and then these messages, in the order
    -- of the calls, leave every queue empty, and count no packet as dropped.
    pub dispatch_in_order :
        (cap : ℕ) (calls : List (ℕ × NormalizedMessage)) (d : Dispatcher S)
        (msg : NormalizedMessage)
        → Ready cap d.subscribers d.queues
        → HasRoom cap (length calls) (mailboxes d.subscribers d.queues)
        → (d' : Dispatcher S) × (msg' : NormalizedMessage) × (active : Bool) × (dispatch_round ops
              (dispatch_each d calls)
              msg
            ≡ some (d', msg', active))
          × Ready cap d'.subscribers d'.queues
          × (mailboxes d'.subscribers d'.queues
              ≡ deliver_all ops (append_all (messages calls) (mailboxes d.subscribers d.queues)))
          × (d'.stats.packets_dropped % 2 ^ 64 ≡ d.stats.packets_dropped % 2 ^ 64)
    dispatch_in_order cap calls d msg h room =
        let q = dispatch_each-Queued cap calls d h room in
        let (d', msg', active, done, ready, boxes, stats) =
          dispatch_round_delivers ops cap (dispatch_each d calls) msg q.ready in
        (
          d',
          msg',
          active,
          done,
          ready,
          boxes ∙ ap (deliver_all ops) q.boxes,
          ap (λ s. s.packets_dropped % 2 ^ 64) stats ∙ q.kept,
        )
