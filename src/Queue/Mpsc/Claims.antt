-- ===== src/Queue/Mpsc/Claims.antt =====
-- Steps of `MPSCQueue` in which a producer claims, fills and publishes a node.
use winter_square.Common.{
  get_elem?-lt, get_elem?-append, get_elem?-end, take-append_le, set_entry, set_entry-cases, ℕ, ◌+◌,
  ◌^◌, ◌≤◌, ◌<◌, ◌≡◌, ◌≢◌, refl, sym, ap, ◌∙◌, [], ◌∷◌, ◌++◌, some, arith, ℕ_discrete, length,
  length-append, get_elem?, inl, inr, ◌⊎◌,
}
use winter_square.Common.Word.{add_u64}
use winter_square.Queue.Mpsc.{
  Node, MpscQueue, node_at, change_node, Producer, Threads, exchange_head, write_data, publish,
}
use winter_square.Queue.Mpsc.Slots.{node_at-change_node, node_at-change_other}
use winter_square.Queue.Mpsc.Holds.{
  freed_by, place, Waits, Published, Claimed, ProducerHolds, Holds,
}
use winter_square.Queue.Mpsc.Moves.{Distinct-set_entry, holds_at}
use winter_square.Queue.Mpsc.Frame.{
  place-Claimed, Published-Waits, ProducerHolds-keeps, Published-keeps, ConsumerHolds-keeps,
}
use mathlib.Core.Option.{some-injective}
use mathlib.Core.Path.{subst}

module _ {A : Type 0} {s : Threads A} (h : Holds s) where
  -- The places of the other producers.
  others :
      (p q t : ℕ) (head : ℕ)
      → p ≢ q
      → place (s.producers p) ≡ some head
      → place (s.producers q) ≡ some t
      → head ≢ t
  others p q t head ne ep eq e = ne (h.distinct p q t (ep ∙ ap some e) eq)

  pub exchange_head-Holds :
      (p : ℕ) (x : A) (head : ℕ)
      → length s.claims + s.queue.size < 2 ^ 63
      → s.producers p ≡ Producer.trying x head
      → s.queue.head ≡ head
      → Holds (exchange_head s p x head)
  unfolding exchange_head node_at
  exchange_head-Holds p x head small e same =
      let low = s.queue.tail + freed_by s.consumer in
      let r = record s.queue { head = add_u64 head 1 } in
      let items = s.claims ++ x ∷ [] in
      let keeps : (t : ℕ) (y : A) → get_elem? s.claims t ≡ some y → get_elem? items t ≡ some y =
        λ t y f. get_elem?-append s.claims (x ∷ []) t f in
      let window : head < low + s.queue.size = holds_at h p e in
      let end : head ≡ length s.claims = sym same ∙ h.head_lem in
      let claim : get_elem? items head ≡ some x =
        subst (λ k. get_elem? items k ≡ some x) (sym end) (get_elem?-end s.claims x) in
      let waits : Waits s.queue head = elim (h.slots head (omega (arith, h)) window) [
        | inl w ↦ w
        | inr u ↦ absurd (omega (arith, get_elem?-lt s.claims head u.right))
      ] in
      record {
        is_size = h.is_size;
        two = h.two;
        head_lem = omega (arith, h, length-append s.claims (x ∷ []));
        tail_lem = h.tail_lem;
        order = omega (arith, h);
        room = omega (arith, h);
        slots = λ t lo hi. elim (h.slots t lo hi) [
          | inl w ↦ inl (record { node = w.node; found = w.found; waiting = w.waiting })
          | inr u ↦ inr (Published-keeps s.queue r s.claims items keeps t refl u)
        ];
        producing = λ q.
            set_entry-cases (ProducerHolds r items low) p (Producer.claimed x head) s.producers q
              (λ self. record {
                not_free = omega (arith, h);
                claim = claim;
                waits = record { node = waits.node; found = waits.found; waiting = waits.waiting };
              })
              (λ ne.
                ProducerHolds-keeps s.queue r s.claims items keeps low low (s.producers q)
                  (omega (arith, h)) (omega arith)
                  (λ t f. (
                    (place-Claimed s.queue s.claims low (s.producers q) t (h.producing q) f).0,
                    refl,
                  ))
                  (h.producing q));
        distinct =
            Distinct-set_entry p (Producer.claimed x head) s.producers h.distinct (λ q t ne f g.
              absurd (
                omega (
                  arith,
                  some-injective _ _ f,
                  (place-Claimed s.queue s.claims low (s.producers q) t (h.producing q) g).1,
                )));
        consuming =
            ConsumerHolds-keeps s.queue r s.claims items keeps s.consumer refl (λ t f g u. refl)
              h.consuming;
        taken_lem =
            h.taken_lem ∙ sym (take-append_le s.queue.tail s.claims (x ∷ []) (omega (arith, h)));
      }

  -- A change of the node that `p` has claimed, which keeps or ends the claim.
  module _ (p : ℕ) (head : ℕ) (here : Producer A) (f : Node A → Node A)
      (mine : place (s.producers p) ≡ some head) where
    r : MpscQueue A
    r = change_node s.queue head f

    low : ℕ
    low = s.queue.tail + freed_by s.consumer

    changed-Holds :
        ((t : ℕ) → place here ≡ some t → head ≡ t)
        → ProducerHolds r s.claims low here
        → Waits r head ⊎ Published r s.claims head
        → Holds (record s { queue = r; producers = set_entry p here s.producers })
    unfolding r low change_node
    changed-Holds stays holds slot =
        let (le, lt, waits) =
          place-Claimed s.queue s.claims low (s.producers p) head (h.producing p) mine in
        let other : (t : ℕ)
            → low ≤ t
            → t < low + s.queue.size
            → head ≢ t
            → node_at r t ≡ node_at s.queue t =
          λ t lo hi ne.
            node_at-change_other s.queue h.is_size low head t f le (omega (arith, h)) lo hi ne in
        record {
          is_size = h.is_size;
          two = h.two;
          head_lem = h.head_lem;
          tail_lem = h.tail_lem;
          order = h.order;
          room = h.room;
          slots = λ t lo hi. elim (ℕ_discrete head t) [
            | yes same ↦ subst (λ k. Waits r k ⊎ Published r s.claims k) same slot
            | no ne ↦ elim (h.slots t lo hi) [
              | inl w ↦ inl (record {
                node = w.node;
                found = other t lo hi ne ∙ w.found;
                waiting = w.waiting;
              })
              | inr u ↦
                  inr (
                    Published-keeps s.queue r s.claims s.claims (λ k y e. e) t (other t lo hi ne) u)
            ]
          ];
          producing = λ q.
              set_entry-cases (ProducerHolds r s.claims low) p here s.producers q (λ self. holds)
                (λ ne.
                  ProducerHolds-keeps s.queue r s.claims s.claims (λ k y e. e) low low
                    (s.producers q) (omega arith) (omega arith)
                    (λ t g.
                      let (lo, hi, w) =
                        place-Claimed s.queue s.claims low (s.producers q) t (h.producing q) g in
                      (lo, other t lo (omega (arith, h)) (others p q t head ne mine g)))
                    (h.producing q));
          distinct =
              Distinct-set_entry p here s.producers h.distinct
                (λ q t ne g k. others p q t head ne mine k (stays t g));
          consuming =
              ConsumerHolds-keeps s.queue r s.claims s.claims (λ k y e. e) s.consumer refl
                (λ t at zero u.
                  other t (omega arith) (omega (arith, h))
                    (λ same. Published-Waits s.queue s.claims t head u waits (sym same)))
                h.consuming;
          taken_lem = h.taken_lem;
        }

  pub write_data-Holds :
      (p : ℕ) (x : A) (head : ℕ)
      → s.producers p ≡ Producer.claimed x head
      → Holds (write_data s p x head)
  unfolding write_data r low change_node
  write_data-Holds p x head e =
      let c : Claimed s.queue s.claims (s.queue.tail + freed_by s.consumer) head x =
        holds_at h p e in
      let waits : Waits
          (r p head (Producer.wrote x head) (λ node. record node { content = x }) (ap place e))
          head =
        record {
          node = record c.waits.node { content = x };
          found =
              node_at-change_node s.queue h.is_size head (λ node. record node { content = x })
                c.waits.found;
          waiting = c.waits.waiting;
        } in
      changed-Holds p head (Producer.wrote x head) (λ node. record node { content = x })
        (ap place e) (λ t f. some-injective _ _ f)
        (record { not_free = c.not_free; claim = c.claim; waits = waits }, refl) (inl waits)

  pub publish-Holds :
      (p : ℕ) (x : A) (head : ℕ)
      → length s.claims + s.queue.size < 2 ^ 63
      → s.producers p ≡ Producer.wrote x head
      → Holds (publish s p x head)
  unfolding publish r low change_node
  publish-Holds p x head small e =
      let (c, filled) : ProducerHolds s.queue s.claims (s.queue.tail + freed_by s.consumer)
          (Producer.wrote x head) =
        holds_at h p e in
      changed-Holds p head Producer.idle (λ node. record node { sequence = add_u64 head 1 })
        (ap place e) (λ t f. cc) tt
        (inr (record {
          node = record c.waits.node { sequence = add_u64 head 1 };
          found =
              node_at-change_node s.queue h.is_size head
                (λ node. record node { sequence = add_u64 head 1 }) c.waits.found;
          ready = omega (arith, get_elem?-lt s.claims head c.claim);
          right = c.claim ∙ ap some (sym filled);
        }))
