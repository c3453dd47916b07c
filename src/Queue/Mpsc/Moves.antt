-- ===== src/Queue/Mpsc/Moves.antt =====
-- Steps of `MPSCQueue` in which a producer only looks.
use winter_square.Common.{
  set_entry, set_entry-cases, ℕ, ◌+◌, ◌^◌, ◌≤◌, ◌<◌, ◌≡◌, ◌≢◌, refl, sym, ap, ◌∙◌, some, none,
  arith, dec_lt, length, inl, inr,
}
use winter_square.Queue.Mpsc.{Node, Sign, difference, node_at, Producer, Threads, moves, test_push}
use winter_square.Queue.Mpsc.Slots.{node_at-window, difference_zero}
use mathlib.Core.Option.{some-injective}
use mathlib.Core.Path.{subst}
use winter_square.Queue.Mpsc.Holds.{freed_by, place, ProducerHolds, Holds}

module _ {A : Type 0} where
  abbrev pub Distinct : (ℕ → Producer A) → Type 0
  Distinct producers =
      (p q t : ℕ) → place (producers p) ≡ some t → place (producers q) ≡ some t → p ≡ q

  -- `p` may come to a place that no other producer has.
  pub Distinct-set_entry :
      (p : ℕ) (here : Producer A) (producers : ℕ → Producer A)
      → Distinct producers
      → ((q t : ℕ) → p ≢ q → place here ≡ some t → place (producers q) ≢ some t)
      → Distinct (set_entry p here producers)
  Distinct-set_entry p here producers d fresh a b t =
      set_entry-cases
        (λ x. place x ≡ some t → place (set_entry p here producers b) ≡ some t → a ≡ b) p here
        producers a
        (λ ea.
          set_entry-cases (λ y. place here ≡ some t → place y ≡ some t → a ≡ b) p here producers b
            (λ eb hx hy. sym ea ∙ eb) (λ nb hx hy. absurd (fresh b t nb hx hy)))
        (λ na.
          set_entry-cases (λ y. place (producers a) ≡ some t → place y ≡ some t → a ≡ b) p here
            producers b (λ eb hx hy. absurd (fresh a t na hy hx)) (λ nb hx hy. d a b t hx hy))

  module _ {s : Threads A} (h : Holds s) where
    pub low : ℕ
    low = s.queue.tail + freed_by s.consumer

    pub moves-Holds :
        (p : ℕ) (here : Producer A)
        → place here ≡ none
        → ProducerHolds s.queue s.claims (s.queue.tail + freed_by s.consumer) here
        → Holds (moves s p here)
    moves-Holds p here nowhere holds = record {
      is_size = h.is_size;
      two = h.two;
      head_lem = h.head_lem;
      tail_lem = h.tail_lem;
      order = h.order;
      room = h.room;
      slots = h.slots;
      producing = λ q.
          set_entry-cases (ProducerHolds s.queue s.claims (s.queue.tail + freed_by s.consumer)) p
            here s.producers q (λ e. holds) (λ ne. h.producing q);
      distinct = Distinct-set_entry p here s.producers h.distinct (λ q t ne e. cc);
      consuming = h.consuming;
      taken_lem = h.taken_lem;
    }

    pub holds_at :
        (p : ℕ) {here : Producer A}
        → s.producers p ≡ here
        → ProducerHolds s.queue s.claims (s.queue.tail + freed_by s.consumer) here
    holds_at p e =
        subst (ProducerHolds s.queue s.claims (s.queue.tail + freed_by s.consumer)) e
          (h.producing p)

    -- The node at a place that is not above the head: it belongs to a place `t` of the window, waits
    -- for it or is published, and is that of the place itself or of one that is `size` earlier.
    pub sequence-window :
        (head : ℕ) (node : Node A)
        → node_at s.queue head ≡ some node
        → (t : ℕ) × (s.queue.tail + freed_by s.consumer ≤ t)
          × (t < s.queue.tail + freed_by s.consumer + s.queue.size)
          × (t ≤ node.sequence)
          × (node.sequence ≤ t + 1)
          × (t < head → t + s.queue.size ≤ head)
    sequence-window head node found =
        let (t, lo, hi, same, apart) =
          node_at-window s.queue h.is_size (s.queue.tail + freed_by s.consumer) head in
        elim (h.slots t lo hi) [
          | inl w ↦
              let e : node ≡ w.node = some-injective _ _ (sym found ∙ same ∙ w.found) in
              (
                t,
                lo,
                hi,
                omega (arith, ap (λ n. n.sequence) e, w.waiting),
                omega (arith, ap (λ n. n.sequence) e, w.waiting),
                apart,
              )
          | inr u ↦
              let e : node ≡ u.node = some-injective _ _ (sym found ∙ same ∙ u.found) in
              (
                t,
                lo,
                hi,
                omega (arith, ap (λ n. n.sequence) e, u.ready),
                omega (arith, ap (λ n. n.sequence) e, u.ready),
                apart,
              )
        ]

    pub loads_sequence-Holds :
        (p : ℕ) (x : A) (head : ℕ) (node : Node A)
        → length s.claims + s.queue.size < 2 ^ 63
        → s.producers p ≡ Producer.loaded_head x head
        → node_at s.queue head ≡ some node
        → Holds (moves s p (Producer.loaded_sequence x head node.sequence))
    loads_sequence-Holds p x head node small e found =
        let (t, lo, hi, below, above, apart) = sequence-window head node found in
        let le : head ≤ s.queue.head = holds_at p e in
        moves-Holds p (Producer.loaded_sequence x head node.sequence) refl (
          omega (arith, h),
          le,
          λ same. elim (dec_lt t head) [
            | yes lt ↦ omega (arith, apart lt, h.two)
            | no ge ↦ omega arith
          ],
        )

    pub test_push-Holds :
        (p : ℕ) (x : A) (head seq : ℕ)
        → length s.claims + s.queue.size < 2 ^ 63
        → s.producers p ≡ Producer.loaded_sequence x head seq
        → (sign : Sign) → difference seq head ≡ sign
        → Holds (test_push s p x head sign)
    unfolding test_push
    test_push-Holds p x head seq small e Sign.zero_sign d =
        let (fits, le, window) = holds_at p e in
        moves-Holds p (Producer.trying x head) refl
          (window (difference_zero seq head fits (omega (arith, h)) d))
    test_push-Holds p x head seq small e Sign.negative d = moves-Holds p Producer.idle refl tt
    test_push-Holds p x head seq small e Sign.positive d =
        moves-Holds p (Producer.looping x) refl tt
