-- ===== src/Queue/Mpsc/Frees.antt =====
-- Steps of the consumer of `MPSCQueue`.
use winter_square.Common.{
  get_elem?-lt, take-suc, ℕ, suc, ◌+◌, ◌^◌, ◌≤◌, ◌<◌, ◌≡◌, ◌≢◌, refl, sym, ap, ◌∙◌, [], ◌∷◌, ◌++◌,
  some, arith, ℕ_discrete, length, length-append, inl, inr, ◌⊎◌, take,
}
use winter_square.Common.Word.{add_u64}
use winter_square.Queue.Mpsc.{
  Node, Sign, difference, node_at, change_node, Consumer, Threads, test_pop, free_node,
  advance_tail,
}
use winter_square.Queue.Mpsc.Slots.{
  node_at-change_node, node_at-change_other, node_at-round, difference_zero,
}
use winter_square.Queue.Mpsc.Holds.{freed_by, Waits, Published, ProducerHolds, ConsumerHolds, Holds}
use winter_square.Queue.Mpsc.Frame.{
  place-Claimed, Published-Waits, ProducerHolds-keeps, Published-keeps,
}
use mathlib.Core.Option.{some-injective}
use mathlib.Core.Path.{subst}

module _ {A : Type 0} {s : Threads A} (h : Holds s) where
  pub consumer_at : {here : Consumer A} → s.consumer ≡ here → ConsumerHolds s.queue s.claims here
  consumer_at e = subst (ConsumerHolds s.queue s.claims) e h.consuming

  -- The consumer looks, and moves neither the tail nor a node.
  pub looks-Holds :
      (here : Consumer A)
      → freed_by here ≡ freed_by s.consumer
      → ConsumerHolds s.queue s.claims here
      → Holds (record s { consumer = here })
  looks-Holds here same holds = record {
    is_size = h.is_size;
    two = h.two;
    head_lem = h.head_lem;
    tail_lem = h.tail_lem;
    order = omega (arith, h, same);
    room = omega (arith, h, same);
    slots = λ t lo hi. h.slots t (omega (arith, same)) (omega (arith, same));
    producing =
        subst (λ n. (p : ℕ) → ProducerHolds s.queue s.claims (s.queue.tail + n) (s.producers p))
          (sym same) h.producing;
    distinct = h.distinct;
    consuming = holds;
    taken_lem = h.taken_lem;
  }

  -- The node at the tail, when it is not free again.
  tail_slot :
      freed_by s.consumer ≡ 0 → Waits s.queue s.queue.tail ⊎ Published s.queue s.claims s.queue.tail
  tail_slot zero = h.slots s.queue.tail (omega (arith, zero)) (omega (arith, zero, h.two))

  pub loads_next-Holds :
      (item : A) (tail : ℕ) (node : Node A)
      → length s.claims + s.queue.size < 2 ^ 63
      → s.consumer ≡ Consumer.loaded_tail item tail
      → node_at s.queue tail ≡ some node
      → Holds (record s { consumer = Consumer.loaded_sequence item tail node.sequence })
  loads_next-Holds item tail node small e found =
      let at : tail ≡ s.queue.tail = consumer_at e in
      let zero : freed_by s.consumer ≡ 0 = ap freed_by e in
      let there : node_at s.queue s.queue.tail ≡ some node =
        ap (node_at s.queue) (sym at) ∙ found in
      looks-Holds (Consumer.loaded_sequence item tail node.sequence) (sym zero)
        (elim (tail_slot zero) [
          | inl w ↦
              let same : node ≡ w.node = some-injective _ _ (sym there ∙ w.found) in
              let seq : node.sequence ≡ s.queue.tail = ap (λ n. n.sequence) same ∙ w.waiting in
              (omega (arith, h), at, λ ready. absurd (omega arith))
          | inr u ↦
              let same : node ≡ u.node = some-injective _ _ (sym there ∙ u.found) in
              let seq : node.sequence ≡ s.queue.tail + 1 = ap (λ n. n.sequence) same ∙ u.ready in
              (
                omega (arith, h, get_elem?-lt s.claims s.queue.tail u.right),
                at,
                λ ready. subst (Published s.queue s.claims) (sym at) u,
              )
        ])

  pub test_pop-Holds :
      (item : A) (tail seq : ℕ)
      → length s.claims + s.queue.size < 2 ^ 63
      → s.consumer ≡ Consumer.loaded_sequence item tail seq
      → (sign : Sign) → difference seq (add_u64 tail 1) ≡ sign
      → Holds (test_pop s item tail sign)
  unfolding test_pop
  test_pop-Holds item tail seq small e Sign.zero_sign d =
      let (fits, at, found) : ConsumerHolds s.queue s.claims
          (Consumer.loaded_sequence item tail seq) =
        consumer_at e in
      let exact : add_u64 tail 1 ≡ tail + 1 = omega (arith, h) in
      looks-Holds (Consumer.found item tail) (sym (ap freed_by e))
        (at, found (difference_zero seq (add_u64 tail 1) fits (omega (arith, h)) d ∙ exact))
  test_pop-Holds item tail seq small e Sign.negative d =
      looks-Holds Consumer.idle (sym (ap freed_by e)) tt
  test_pop-Holds item tail seq small e Sign.positive d =
      looks-Holds Consumer.idle (sym (ap freed_by e)) tt

  pub takes-Holds :
      (item : A) (tail : ℕ) (node : Node A)
      → s.consumer ≡ Consumer.found item tail
      → node_at s.queue tail ≡ some node
      → Holds (record s { consumer = Consumer.took node.content tail })
  takes-Holds item tail node e found =
      let (at, u) : ConsumerHolds s.queue s.claims (Consumer.found item tail) = consumer_at e in
      let same : u.node ≡ node = some-injective _ _ (sym u.found ∙ found) in
      looks-Holds (Consumer.took node.content tail) (sym (ap freed_by e))
        (at, u, u.right ∙ ap (λ n. some n.content) same)

  pub free_node-Holds :
      (item : A) (tail : ℕ)
      → length s.claims + s.queue.size < 2 ^ 63
      → s.consumer ≡ Consumer.took item tail
      → Holds (free_node s item tail)
  unfolding free_node change_node
  free_node-Holds item tail small e =
      let (at, u, claim) : ConsumerHolds s.queue s.claims (Consumer.took item tail) =
        consumer_at e in
      let zero : freed_by s.consumer ≡ 0 = ap freed_by e in
      let f : Node A → Node A = λ node. record node { sequence = add_u64 tail s.queue.size } in
      let r = change_node s.queue tail f in
      let below = get_elem?-lt s.claims tail claim in
      let other : (t : ℕ)
          → tail ≤ t
          → t < tail + s.queue.size
          → tail ≢ t
          → node_at r t ≡ node_at s.queue t =
        λ t lo hi ne.
          node_at-change_other s.queue h.is_size tail tail t f (omega arith) (omega (arith, h.two))
            lo hi ne in
      let low = s.queue.tail + freed_by s.consumer in
      record {
        is_size = h.is_size;
        two = h.two;
        head_lem = h.head_lem;
        tail_lem = h.tail_lem;
        order = omega (arith, h);
        room = omega (arith, h, zero);
        slots = λ t lo hi. elim (ℕ_discrete t (tail + s.queue.size)) [
          | yes next ↦ inl (record {
            node = f u.node;
            found =
                ap (node_at r) next
                ∙ node_at-round r h.is_size tail
                ∙ node_at-change_node s.queue h.is_size tail f u.found;
            waiting = omega (arith, h);
          })
          | no ne ↦ elim (h.slots t (omega (arith, zero)) (omega (arith, zero))) [
            | inl w ↦ inl (record {
              node = w.node;
              found = other t (omega arith) (omega arith) (λ x. absurd (omega arith)) ∙ w.found;
              waiting = w.waiting;
            })
            | inr v ↦ inr (
                Published-keeps s.queue r s.claims s.claims (λ k y g. g) t
                  (other t (omega arith) (omega arith) (λ x. absurd (omega arith))) v)
          ]
        ];
        producing = λ p.
            ProducerHolds-keeps s.queue r s.claims s.claims (λ k y g. g) low (s.queue.tail + 1)
              (s.producers p) (omega arith) (omega (arith, zero))
              (λ t g.
                let (lo, hi, w) =
                  place-Claimed s.queue s.claims low (s.producers p) t (h.producing p) g in
                let ne : tail ≢ t = λ same. Published-Waits s.queue s.claims tail t u w same in
                (omega (arith, zero), other t (omega (arith, zero)) (omega (arith, h, zero)) ne))
              (h.producing p);
        distinct = h.distinct;
        consuming = (at, claim);
        taken_lem = h.taken_lem;
      }

  pub advance_tail-Holds :
      (item : A) (tail : ℕ)
      → length s.claims + s.queue.size < 2 ^ 63
      → s.consumer ≡ Consumer.freed item tail
      → Holds (advance_tail s item tail)
  unfolding advance_tail node_at
  advance_tail-Holds item tail small e =
      let (at, claim) : ConsumerHolds s.queue s.claims (Consumer.freed item tail) = consumer_at e in
      let one : freed_by s.consumer ≡ 1 = ap freed_by e in
      let r = record s.queue { tail = add_u64 tail 1 } in
      let below = get_elem?-lt s.claims tail claim in
      let low = s.queue.tail + freed_by s.consumer in
      let more : suc tail ≡ add_u64 tail 1 = omega (arith, h) in
      record {
        is_size = h.is_size;
        two = h.two;
        head_lem = h.head_lem;
        tail_lem = omega (arith, h, length-append s.taken (item ∷ []));
        order = omega (arith, h, one);
        room = omega (arith, h, one);
        slots = λ t lo hi. elim (h.slots t (omega (arith, h, one)) (omega (arith, h, one))) [
          | inl w ↦ inl (record { node = w.node; found = w.found; waiting = w.waiting })
          | inr u ↦ inr (Published-keeps s.queue r s.claims s.claims (λ k y g. g) t refl u)
        ];
        producing = λ p.
            ProducerHolds-keeps s.queue r s.claims s.claims (λ k y g. g) low (add_u64 tail 1 + 0)
              (s.producers p) (omega arith) (omega (arith, h, one))
              (λ t g.
                let (lo, hi, w) =
                  place-Claimed s.queue s.claims low (s.producers p) t (h.producing p) g in
                (omega (arith, h, one), refl))
              (h.producing p);
        distinct = h.distinct;
        consuming = tt;
        taken_lem =
            ap (λ xs. xs ++ item ∷ []) (h.taken_lem ∙ ap (λ n. take n s.claims) (sym at))
            ∙ sym (take-suc tail s.claims claim)
            ∙ ap (λ n. take n s.claims) more;
      }
