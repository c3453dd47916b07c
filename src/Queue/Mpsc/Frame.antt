-- ===== src/Queue/Mpsc/Frame.antt =====
-- What a step of one thread leaves to the others.
use winter_square.Common.{
  get_elem?-lt, ℕ, ◌+◌, ◌≤◌, ◌<◌, ◌≡◌, ◌≢◌, refl, sym, ap, ◌∙◌, List, some, arith, get_elem?,
  length,
}
use winter_square.Queue.Mpsc.{MpscQueue, node_at, Producer, Consumer}
use winter_square.Queue.Mpsc.Holds.{
  freed_by, place, Waits, Published, Claimed, ProducerHolds, ConsumerHolds,
}
use mathlib.Core.Option.{some-injective}
use mathlib.Core.Path.{subst}

module _ {A : Type 0} where
  -- The place of a producer is in the window and below the head.
  pub place-Claimed :
      (q : MpscQueue A) (claims : List A) (low : ℕ) (here : Producer A) (t : ℕ)
      → ProducerHolds q claims low here
      → place here ≡ some t
      → (low ≤ t) × (t < length claims) × Waits q t
  place-Claimed q claims low (Producer.claimed x head) t c e =
      subst (λ k. (low ≤ k) × (k < length claims) × Waits q k) (some-injective _ _ e)
        (c.not_free, get_elem?-lt claims head c.claim, c.waits)
  place-Claimed q claims low (Producer.wrote x head) t (c, _) e =
      subst (λ k. (low ≤ k) × (k < length claims) × Waits q k) (some-injective _ _ e)
        (c.not_free, get_elem?-lt claims head c.claim, c.waits)
  place-Claimed q claims low Producer.idle t c e = cc
  place-Claimed q claims low (Producer.looping x) t c e = cc
  place-Claimed q claims low (Producer.loaded_head x head) t c e = cc
  place-Claimed q claims low (Producer.loaded_sequence x head seq) t c e = cc
  place-Claimed q claims low (Producer.trying x head) t c e = cc

  -- A node is not both published and claimed.
  pub Published-Waits :
      (q : MpscQueue A) (claims : List A) (a b : ℕ) → Published q claims a → Waits q b → a ≢ b
  Published-Waits q claims a b u w e =
      let same : u.node ≡ w.node = some-injective _ _ (sym u.found ∙ ap (node_at q) e ∙ w.found) in
      absurd (omega (arith, ap (λ n. n.sequence) same, u.ready, w.waiting, e))

  -- `q` and `claims` before a step, `r` and `items` after it.
  module _ (q r : MpscQueue A) (claims items : List A)
      (keeps : (t : ℕ) (x : A) → get_elem? claims t ≡ some x → get_elem? items t ≡ some x) where
    Claimed-keeps :
        (low low' t : ℕ) (x : A)
        → low' ≤ t
        → node_at r t ≡ node_at q t
        → Claimed q claims low t x
        → Claimed r items low' t x
    Claimed-keeps low low' t x le same c = record {
      not_free = le;
      claim = keeps t x c.claim;
      waits = record {
        node = c.waits.node;
        found = same ∙ c.waits.found;
        waiting = c.waits.waiting;
      };
    }

    pub ProducerHolds-keeps :
        (low low' : ℕ) (here : Producer A)
        → q.head ≤ r.head
        → low + q.size ≤ low' + r.size
        → ((t : ℕ) → place here ≡ some t → (low' ≤ t) × (node_at r t ≡ node_at q t))
        → ProducerHolds q claims low here
        → ProducerHolds r items low' here
    unfolding Claimed-keeps
    ProducerHolds-keeps low low' Producer.idle hd win own h = tt
    ProducerHolds-keeps low low' (Producer.looping x) hd win own h = tt
    ProducerHolds-keeps low low' (Producer.loaded_head x head) hd win own h = omega arith
    ProducerHolds-keeps low low' (Producer.loaded_sequence x head seq) hd win own (fits, le, h) =
        (fits, omega arith, λ e. omega (arith, h e))
    ProducerHolds-keeps low low' (Producer.trying x head) hd win own h = omega arith
    ProducerHolds-keeps low low' (Producer.claimed x head) hd win own c =
        let (le, same) = own head refl in Claimed-keeps low low' head x le same c
    ProducerHolds-keeps low low' (Producer.wrote x head) hd win own (c, e) =
        let (le, same) = own head refl in (Claimed-keeps low low' head x le same c, e)

    pub Published-keeps :
        (t : ℕ) → node_at r t ≡ node_at q t → Published q claims t → Published r items t
    Published-keeps t same u = record {
      node = u.node;
      found = same ∙ u.found;
      ready = u.ready;
      right = keeps t u.node.content u.right;
    }

    pub ConsumerHolds-keeps :
        (c : Consumer A)
        → r.tail ≡ q.tail
        → ((t : ℕ) → t ≡ q.tail → freed_by c ≡ 0 → Published q claims t → node_at r t ≡ node_at q t)
        → ConsumerHolds q claims c
        → ConsumerHolds r items c
    ConsumerHolds-keeps Consumer.idle tl own h = tt
    ConsumerHolds-keeps (Consumer.loaded_tail item tail) tl own h = omega arith
    ConsumerHolds-keeps (Consumer.loaded_sequence item tail seq) tl own (fits, e, h) =
        (fits, omega arith, λ ready. let u = h ready in Published-keeps tail (own tail e refl u) u)
    ConsumerHolds-keeps (Consumer.found item tail) tl own (e, u) =
        (omega arith, Published-keeps tail (own tail e refl u) u)
    ConsumerHolds-keeps (Consumer.took item tail) tl own (e, u, claim) =
        (omega arith, Published-keeps tail (own tail e refl u) u, keeps tail item claim)
    ConsumerHolds-keeps (Consumer.freed item tail) tl own (e, claim) =
        (omega arith, keeps tail item claim)
