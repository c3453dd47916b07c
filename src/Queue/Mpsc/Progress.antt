-- ===== src/Queue/Mpsc/Progress.antt =====
-- Calls of `MPSCQueue` that come to their end, wherever the other threads stand.
use winter_square.Common.{
  sym, get_elem?-end, get_elem?-lt, set_entry, ℕ, ◌+◌, ◌^◌, ◌≤◌, ◌<◌, ◌≡◌, refl, ap, true, false,
  [], ◌∷◌, ◌++◌, some, arith, length, get_elem?, inl, inr, ◌⊎◌, ==-yes,
}
use winter_square.Common.Word.{add_u64}
use winter_square.Queue.Spsc.Ring.{IsSize}
use winter_square.Queue.Mpsc.{
  Node, Sign, difference, init, empty, node_at, Producer, Consumer, Threads, initial, moves,
  test_push, exchange_head, write_data, publish, test_pop, free_node, advance_tail, begin_push,
  loads_head, loads_sequence, tests_push, exchanges, writes, publishes, begin_pop, loads_next,
  tests_pop, takes, frees, advances, Step, Reach, next,
}
use winter_square.Queue.Mpsc.Slots.{node_at-change_node, difference_same, difference_below}
use winter_square.Queue.Mpsc.Holds.{freed_by, Waits, Published, Holds}
use winter_square.Queue.Mpsc.Lone.{consuming, producing, Must, done, consumer-Must, producer-Must}
use winter_square.Queue.Mpsc.Linear.{held}
use mathlib.Core.Path.{subst}

place_self :
    {A : Type 0} (p : ℕ) (place : Producer A) (producers : ℕ → Producer A)
    → set_entry p place producers p ≡ place
place_self p place producers = rw (==-yes {a = p} refl) refl

-- A producer that has claimed the place at the head, and the way there.
abbrev tried_head : {A : Type 0} → Threads A → ℕ → A → ℕ → Threads A
tried_head s p x seq =
    let loaded = moves (moves s p (Producer.looping x)) p (Producer.loaded_head x s.queue.head) in
    moves (moves loaded p (Producer.loaded_sequence x s.queue.head seq)) p
      (Producer.trying x s.queue.head)

abbrev pub claimed_head : {A : Type 0} → Threads A → ℕ → A → ℕ → Threads A
claimed_head s p x seq = exchange_head (tried_head s p x seq) p x s.queue.head

claimed_self :
    {A : Type 0} (s : Threads A) (p : ℕ) (x : A) (seq : ℕ)
    → (claimed_head s p x seq).producers p ≡ Producer.claimed x s.queue.head
unfolding exchange_head
claimed_self s p x seq = place_self p _ (tried_head s p x seq).producers

pub claim_runs :
    {A : Type 0} {start s : Threads A} (p : ℕ) (x : A) (node : Node A)
    → Reach start s
    → s.producers p ≡ Producer.idle
    → node_at s.queue s.queue.head ≡ some node
    → difference node.sequence s.queue.head ≡ Sign.zero_sign
    → Reach start (claimed_head s p x node.sequence)
unfolding test_push
claim_runs {start = start} {s = s} p x node r idle found same =
    let head = s.queue.head in
    let a = moves s p (Producer.looping x) in
    let b = moves a p (Producer.loaded_head x head) in
    let c = moves b p (Producer.loaded_sequence x head node.sequence) in
    let loaded : Reach start c =
      next (next (next r (begin_push p x idle)) (loads_head p x (place_self p _ s.producers)))
        (loads_sequence p x head node (place_self p _ a.producers) found) in
    let tested : Reach start (test_push c p x head (difference node.sequence head)) =
      next loaded (tests_push p x head node.sequence (place_self p _ b.producers)) in
    let tries : Reach start (moves c p (Producer.trying x head)) = rw same at tested in
    next tries (exchanges p x head (place_self p _ c.producers) refl)

-- A producer has pushed its item: the next place is its own, and published with it.
abbrev pub Pushed : {A : Type 0} → Threads A → ℕ → A → Threads A → Type 0
Pushed s p x t =
    (t.producers p ≡ Producer.idle)
    × (t.claims ≡ s.claims ++ x ∷ [])
    × (t.taken ≡ s.taken)
    × Published t.queue t.claims (length s.claims)
    × (get_elem? t.claims (length s.claims) ≡ some x)

-- The consumer has popped an item.
abbrev pub Popped : {A : Type 0} → Threads A → A → Threads A → Type 0
Popped s x t = (t.consumer ≡ Consumer.idle) × (t.claims ≡ s.claims) × (t.taken ≡ s.taken ++ x ∷ [])

module _ {A : Type 0} {s : Threads A} (h : Holds s)
    (small : length s.claims + s.queue.size < 2 ^ 63) where
  push-Must :
      (p : ℕ) (x : A)
      → s.queue.head < s.queue.tail + s.queue.size
      → Must (producing p) (Pushed s p x) (moves s p (Producer.looping x))
  unfolding test_push exchange_head write_data publish node_at
  push-Must p x room =
      let head = s.queue.head in
      let w : Waits s.queue head = elim (h.slots head (omega (arith, h)) (omega arith)) [
        | inl w ↦ w
        | inr u ↦ absurd (omega (arith, h, get_elem?-lt s.claims head u.right))
      ] in
      let same : difference w.node.sequence head ≡ Sign.zero_sign =
        difference_same w.node.sequence head (omega (arith, h, w.waiting)) (omega (arith, h))
          w.waiting in
      let a = moves s p (Producer.looping x) in
      let b = moves a p (Producer.loaded_head x head) in
      let c = moves b p (Producer.loaded_sequence x head w.node.sequence) in
      let d = moves c p (Producer.trying x head) in
      let e = exchange_head d p x head in
      let f = write_data e p x head in
      let at_end : get_elem? (s.claims ++ x ∷ []) head ≡ some x =
        subst (λ n. get_elem? (s.claims ++ x ∷ []) n ≡ some x) (sym h.head_lem)
          (get_elem?-end s.claims x) in
      let ended : Must (producing p) (Pushed s p x) (publish f p x head) = done (
        place_self p _ f.producers,
        refl,
        refl,
        subst (Published (publish f p x head).queue e.claims) h.head_lem (record {
          node = record w.node { sequence = add_u64 head 1; content = x };
          found =
              node_at-change_node f.queue h.is_size head
                (λ node. record node { sequence = add_u64 head 1 })
                (node_at-change_node e.queue h.is_size head (λ node. record node { content = x })
                  w.found);
          ready = omega (arith, h);
          right = at_end;
        }),
        get_elem?-end s.claims x,
      ) in
      let wrote : Must (producing p) (Pushed s p x) e =
        producer-Must p (writes p x head (place_self p _ d.producers)) refl
          (rw (place_self p (Producer.claimed x head) d.producers) tt)
          (producer-Must p (publishes p x head (place_self p _ e.producers)) refl
            (rw (place_self p (Producer.wrote x head) e.producers) tt) ended) in
      let tried : Must (producing p) (Pushed s p x) d =
        producer-Must p (exchanges p x head (place_self p _ c.producers) refl) refl
          (rw (place_self p (Producer.trying x head) c.producers) tt) wrote in
      producer-Must p (loads_head p x (place_self p _ s.producers)) refl
        (rw (place_self p (Producer.looping x) s.producers) tt)
        (producer-Must p (loads_sequence p x head w.node (place_self p _ a.producers) w.found) refl
          (rw (place_self p (Producer.loaded_head x head) a.producers) tt)
          (producer-Must p (tests_push p x head w.node.sequence (place_self p _ b.producers)) refl
            (rw (place_self p (Producer.loaded_sequence x head w.node.sequence) b.producers) tt)
            (rw same tried)))

  pop-Must :
      (item : A) (node : Node A)
      → node_at s.queue s.queue.tail ≡ some node
      → node.sequence ≡ s.queue.tail + 1
      → s.consumer ≡ Consumer.idle
      → Must consuming
          (Popped s node.content)
          (record s { consumer = Consumer.loaded_tail item s.queue.tail })
  unfolding test_pop free_node advance_tail
  pop-Must item node found ready idle =
      let tail = s.queue.tail in
      let same : difference node.sequence (add_u64 tail 1) ≡ Sign.zero_sign =
        difference_same node.sequence (add_u64 tail 1) (omega (arith, h)) (omega (arith, h))
          (omega (arith, h)) in
      let finish : Must consuming (Popped s node.content)
          (record s { consumer = Consumer.found item tail }) =
        consumer-Must (takes item tail node refl found) refl tt (
          consumer-Must (frees node.content tail refl) refl tt
            (consumer-Must (advances node.content tail refl) refl tt (done (refl, refl, refl)))) in
      consumer-Must (loads_next item tail node refl found) refl tt
        (consumer-Must (tests_pop item tail node.sequence refl) refl tt (rw same finish))

module _ {A : Type 0} {size : ℕ} (default : A) (is_size : IsSize size) (two : 2 ≤ size)
    {s : Threads A} (r : Reach (initial (init size default)) s)
    (small : length s.claims + s.queue.size < 2 ^ 63) where
  -- In a reachable state of a queue of two nodes at least, when fewer than 2 ^ 63 places were
  -- claimed, the nodes counted with them, and fewer items are claimed and not yet returned than the
  -- queue has nodes: a producer that is in no call can call `push`, and every run of that producer
  -- alone from there in which no `compare_exchange_weak` fails for no reason, wherever the other
  -- threads stand in their calls, comes to the end of the call, with the item claimed as the next
  -- one and published at its place, and nothing taken.
  pub push_completes :
      (p : ℕ) (x : A)
      → s.producers p ≡ Producer.idle
      → length s.claims < length s.taken + s.queue.size
      → Step s (moves s p (Producer.looping x))
        × Must (producing p) (Pushed s p x) (moves s p (Producer.looping x))
  push_completes p x idle room =
      let h = held default is_size two r small in
      (begin_push p x idle, push-Must h small p x (omega (arith, h)))

  -- In a reachable state of a queue of two nodes at least, when fewer than 2 ^ 63 places were
  -- claimed, the nodes counted with them: when the consumer is in no call, `empty` reads a node
  -- that exists, and either answers true, while the next place is not published, or answers false,
  -- and the consumer can call `pop`, and every run of the consumer alone from there, wherever the
  -- producers stand in their calls, comes to the end of the call, which returns the next item in
  -- the order of the claims.
  pub pop_completes :
      (item : A)
      → s.consumer ≡ Consumer.idle
      → let popping : Threads A = record s { consumer = Consumer.loaded_tail item s.queue.tail } in
        ((empty s.queue ≡ some true) × Waits s.queue (length s.taken))
        ⊎ ((empty s.queue ≡ some false)
            × ((x : A) × (get_elem? s.claims (length s.taken) ≡ some x)
                × Step s popping
                × Must consuming (Popped s x) popping))
  unfolding empty
  pop_completes item idle =
      let h = held default is_size two r small in
      let zero : freed_by s.consumer ≡ 0 = ap freed_by idle in
      let at : s.queue.tail ≡ length s.taken = h.tail_lem in
      elim (h.slots s.queue.tail (omega (arith, zero)) (omega (arith, zero, h.two))) [
        | inl w ↦
            let below : difference w.node.sequence (add_u64 s.queue.tail 1) ≡ Sign.negative =
              difference_below w.node.sequence (add_u64 s.queue.tail 1)
                (omega (arith, h, w.waiting)) (omega (arith, h)) (omega (arith, h, w.waiting)) in
            inl (rw (w.found, below) refl, subst (Waits s.queue) at w)
        | inr u ↦
            let below = get_elem?-lt s.claims s.queue.tail u.right in
            let same : difference u.node.sequence (add_u64 s.queue.tail 1) ≡ Sign.zero_sign =
              difference_same u.node.sequence (add_u64 s.queue.tail 1) (omega (arith, h, u.ready))
                (omega (arith, h)) (omega (arith, h, u.ready)) in
            inr (
              rw (u.found, same) refl,
              (
                u.node.content,
                subst (λ n. get_elem? s.claims n ≡ some u.node.content) at u.right,
                begin_pop item idle,
                pop-Must h small item u.node u.found u.ready idle,
              ),
            )
      ]
