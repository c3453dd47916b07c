-- ===== src/Core/Engine/Threads/Post.antt =====
-- A push of `dispatch` keeps what holds of a running engine's threads.
use winter_square.Common.{
  ℕ, suc, ◌+◌, ◌<◌, ◌≡◌, ◌≢◌, refl, sym, ap, ◌∙◌, false, [], ◌∷◌, ◌++◌, some, arith, ltb, lt→ltb,
  take, drop, get_elem?, get_elem?-lt, length-set, ==-yes, ==-no, inl, inr,
}
use winter_square.Core.Types.{NormalizedMessage}
use winter_square.Core.Parser.{Parser}
use winter_square.Core.Subscriber.{Subscriber}
use winter_square.Core.Dispatcher.Mailboxes.{Messages, MessageQueue}
use winter_square.Core.Engine.{CoreEngine}
use winter_square.Core.Engine.Threads.{posting, Threads, queues, post_one}
use winter_square.Core.Engine.Threads.Log.{asked, asked-append, pending, set_cases, drop-take_at}
use winter_square.Core.Engine.Threads.Holds.{Serves, Holds}
use winter_square.Core.Engine.Threads.Flow.{push-Flows}
use winter_square.Queue.Spsc
use mathlib.Core.List.{append_assoc}

not_below : (k : ℕ) → ltb k k ≡ false
not_below k = ground arith

below_next : (j k : ℕ) → j ≢ k → ltb k (j + 1) ≡ ltb k j
below_next j k ne = ground arith

module _ {P S : Type 0} (parser_ops : Parser P) (subscriber_ops : Subscriber S)
    (start : CoreEngine P S) (parser : P) (messages : Messages) (s : Threads P S)
    (h : Holds parser_ops subscriber_ops start parser messages s) (parse_start count i now j : ℕ)
    (m : NormalizedMessage) (q : MessageQueue) (at : s.place ≡ posting parse_start count i now j)
    (message : get_elem? s.messages i ≡ some m) (queue : get_elem? (queues s) j ≡ some q) where
  abbrev s' : Threads P S
  s' = post_one s parse_start count i now j m q

  inside : i < count
  inside = (rw at at h.placed).0

  -- The queue that is posted to has been offered the message, and no other.
  posted-Serves :
      Serves
        (Spsc.push q m).1
        (s.history.offered j ++ (m, (Spsc.push q m).0) ∷ [])
        (s.history.given j)
        (pending (posting parse_start count i now (j + 1)) s.messages j)
        s.history.parsed
  posted-Serves =
      let old = h.served j q queue in
      record {
        flows = push-Flows old.flows m;
        offers =
            rw (lt→ltb j (j + 1) (omega arith), asked-append (s.history.offered j))
              (append_assoc (asked (s.history.offered j)) (m ∷ [])
                  (drop (suc i) (take count s.messages))
                ∙ ap (λ xs. asked (s.history.offered j) ++ xs)
                    (sym (drop-take_at i count s.messages message inside))
                ∙ rw (at, not_below j) at old.offers);
      }

  post_one-Serves :
      (k : ℕ) (y : MessageQueue)
      → get_elem? (queues s') k ≡ some y
      → Serves y
          (s'.history.offered k)
          (s'.history.given k)
          (pending s'.place s'.messages k)
          s'.history.parsed
  unfolding post_one
  post_one-Serves k y here = elim (set_cases (queues s) j k (Spsc.push q m).1 here) [
    | inl (same, this) ↦ rw (← same, ← this, ==-yes refl) posted-Serves
    | inr (other, before) ↦ rw (==-no other, below_next j k other) (rw at at h.served k y before)
  ]

  pub post_one-Holds :
      Holds parser_ops subscriber_ops start parser messages
        (post_one s parse_start count i now j m q)
  unfolding post_one
  post_one-Holds = record {
    packets = h.packets;
    taken = h.taken;
    placed =
        (inside, rw (length-set (queues s) j) (omega (arith, get_elem?-lt (queues s) j queue)));
    paired = length-set (queues s) j _ ∙ h.paired;
    served = post_one-Serves;
    delivered = h.delivered;
  }
