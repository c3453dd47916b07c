-- ===== src/Core/Dispatcher/Delivery.antt =====
-- A round of `dispatch_loop` gives every subscriber what waits in its queue.
use winter_square.Common.{
  ℕ, zero, suc, ◌<◌, ◌≡◌, refl, ap, ap₂, ◌∙◌, Bool, true, false, List, [], ◌∷◌, Option, some, arith,
  length,
}
use winter_square.Core.Types.{NormalizedMessage}
use winter_square.Core.Subscriber.{Subscriber}
use winter_square.Core.Dispatcher.{Dispatcher, drain, drain_all, dispatch_round}
use winter_square.Queue.Fifo
use winter_square.Queue.Spsc
use winter_square.Queue.Spsc.{SpscQueue}
use winter_square.Queue.Spsc.Ring.{IsValid, pop-IsValid, indices}
use winter_square.Queue.Spsc.Refine.{contents, pop_refines, observers}
use winter_square.Queue.Spsc.Client.{capacity-pop}
use winter_square.Core.Dispatcher.Mailboxes.{Messages, MessageQueue, mailboxes, Ready}

module _ {S : Type 0} (ops : Subscriber S) where
  -- The subscriber after some messages, in order.
  unfoldable pub deliver : S → List NormalizedMessage → S
  deliver s [] = s
  deliver s (m ∷ ms) = deliver (ops.on_message s m).1 ms

  -- A drained queue, and the subscriber that was given what waited in it.
  abbrev Drained :
      MessageQueue → Messages → S → Option (MessageQueue × S × NormalizedMessage × Bool) → Type 0
  Drained q waiting s r =
      (q' : MessageQueue) × (msg' : NormalizedMessage) × (active : Bool) × (r
        ≡ some (q', deliver s waiting, msg', active))
      × IsValid q'
      × (Spsc.capacity q' ≡ Spsc.capacity q)
      × (contents q' ≡ [])

  module _ (fuel : ℕ) (q : MessageQueue) (s : S) (msg : NormalizedMessage) (active : Bool) where
    abbrev after : MessageQueue
    after = (Spsc.pop q msg).2

    drain_ends :
        (Spsc.pop q msg).0 ≡ false
        → drain ops (suc fuel) q s msg active ≡ some (after, s, (Spsc.pop q msg).1, active)
    unfolding drain
    drain_ends e = rw (e, drain)

    drain_goes :
        (m : NormalizedMessage)
        → (Spsc.pop q msg).0 ≡ true
        → (Spsc.pop q msg).1 ≡ m
        → drain ops (suc fuel) q s msg active ≡ drain ops fuel after (ops.on_message s m).1 m true
    unfolding drain
    drain_goes m e f =
        rw (e, drain) (ap (λ out. drain ops fuel after (ops.on_message s out).1 out true) f)

    pops :
        (waiting : Messages)
        → IsValid q
        → contents q ≡ waiting
        → ◌≡◌ {A = Bool × NormalizedMessage × Messages}
            ((Spsc.pop q msg).0, (Spsc.pop q msg).1, contents after)
            (Fifo.pop waiting msg)
    pops waiting v e = pop_refines v msg ∙ ap (λ c. Fifo.pop c msg) e

  drain_lem :
      (fuel : ℕ) (q : MessageQueue) (s : S) (msg : NormalizedMessage) (active : Bool)
      (waiting : Messages)
      → IsValid q
      → contents q ≡ waiting
      → length waiting < fuel
      → Drained q waiting s (drain ops fuel q s msg active)
  unfolding deliver Fifo.pop
  drain_lem zero q s msg active waiting v e h = elim h [ ]
  drain_lem (suc fuel) q s msg active [] v e h =
      let p = pops fuel q s msg active [] v e in
      (
        after fuel q s msg active,
        (Spsc.pop q msg).1,
        active,
        drain_ends fuel q s msg active (ap (λ r. r.0) p),
        pop-IsValid msg v,
        capacity-pop q msg,
        ap (λ r. r.2) p,
      )
  drain_lem (suc fuel) q s msg active (m ∷ ms) v e h =
      let p = pops fuel q s msg active (m ∷ ms) v e in
      let (q', msg', active', done, v', c', empty) =
        drain_lem fuel (after fuel q s msg active) (ops.on_message s m).1 m true ms
          (pop-IsValid msg v) (ap (λ r. r.2) p) (omega arith) in
      (
        q',
        msg',
        active',
        drain_goes fuel q s msg active m (ap (λ r. r.0) p) (ap (λ r. r.1) p) ∙ done,
        v',
        c' ∙ capacity-pop q msg,
        empty,
      )

  -- Every mailbox emptied into its subscriber.
  unfoldable pub deliver_all : List (S × List NormalizedMessage) → List (S × List NormalizedMessage)
  deliver_all [] = []
  deliver_all ((s, waiting) ∷ boxes) = (deliver s waiting, []) ∷ deliver_all boxes

  abbrev DrainedAll :
      ℕ
      → List (S × Messages)
      → Option (List MessageQueue × List S × NormalizedMessage × Bool)
      → Type 0
  DrainedAll cap boxes r =
      (queues : List MessageQueue) × (subscribers : List S) × (msg : NormalizedMessage)
      × (active : Bool) × (r ≡ some (queues, subscribers, msg, active))
      × Ready cap subscribers queues
      × (mailboxes subscribers queues ≡ deliver_all boxes)

  fits_size : {q : MessageQueue} → IsValid q → length (contents q) < q.size
  fits_size v = omega (arith, observers v, indices v)

  drain_all_lem :
      (cap : ℕ) (subscribers : List S) (queues : List MessageQueue) (msg : NormalizedMessage)
      (active : Bool)
      → Ready cap subscribers queues
      → DrainedAll cap (mailboxes subscribers queues) (drain_all ops queues subscribers msg active)
  unfolding drain_all deliver_all
  drain_all_lem cap [] [] msg active h = ([], [], msg, active, refl, tt, refl)
  drain_all_lem cap [] (q ∷ queues) msg active h = absurd h
  drain_all_lem cap (s ∷ subscribers) [] msg active h = absurd h
  drain_all_lem cap (s ∷ subscribers) (q ∷ queues) msg active (v, c, h) =
      let (q', msg', active', done, v', c', empty) =
        drain_lem q.size q s msg active (contents q) v refl (fits_size v) in
      let (queues', subscribers', msg'', active'', rest, ready, boxes) =
        drain_all_lem cap subscribers queues msg' active' h in
      (
        q' ∷ queues',
        deliver s (contents q) ∷ subscribers',
        msg'',
        active'',
        rw (done, rest),
        (v', c' ∙ c, ready),
        ap₂ (λ waiting bs. (deliver s (contents q), waiting) ∷ bs) empty boxes,
      )

  -- If every subscriber has a valid queue, a round delivers to every subscriber the messages that wait for it, in order, and leaves every
  -- queue empty; it ends, and keeps the queues valid.
  pub dispatch_round_delivers :
      (cap : ℕ) (d : Dispatcher S) (msg : NormalizedMessage)
      → Ready cap d.subscribers d.queues
      → (d' : Dispatcher S) × (msg' : NormalizedMessage) × (active : Bool) × (dispatch_round ops d
            msg
          ≡ some (d', msg', active))
        × Ready cap d'.subscribers d'.queues
        × (mailboxes d'.subscribers d'.queues ≡ deliver_all (mailboxes d.subscribers d.queues))
        × (d'.stats ≡ d.stats)
  unfolding dispatch_round
  dispatch_round_delivers cap d msg h =
      let (queues, subscribers, msg', active, done, ready, boxes) =
        drain_all_lem cap d.subscribers d.queues msg false h in
      (
        record d { queues = queues; subscribers = subscribers },
        msg',
        active,
        rw done,
        ready,
        boxes,
        refl,
      )
