-- ===== src/Queue/Mpsc/Keep.antt =====
-- Every step of the threads of one `MPSCQueue` keeps what holds between steps.
use winter_square.Common.{
  ℕ, zero, suc, ◌+◌, ◌^◌, ◌≤◌, ◌<◌, ◌≡◌, refl, sym, ap, ◌∙◌, [], ◌∷◌, some, arith, length,
  length-append, get_elem?, inl,
}
use winter_square.Common.Word.{add_u64}
use winter_square.Queue.Spsc.Ring.{IsSize, and_mask}
use winter_square.Queue.Mpsc.{
  Sign, difference, init, node_at, number_nodes, change_node, Producer, Consumer, Threads, initial,
  test_push, exchange_head, write_data, publish, test_pop, free_node, advance_tail, Step,
  begin_push, loads_head, loads_sequence, tests_push, exchanges, misses, writes, publishes,
  begin_pop, loads_next, tests_pop, takes, frees, advances, Reach, here, next,
}
use winter_square.Queue.Mpsc.Holds.{freed_by, Holds}
use winter_square.Queue.Mpsc.Moves.{moves-Holds, loads_sequence-Holds, test_push-Holds}
use winter_square.Queue.Mpsc.Claims.{exchange_head-Holds, write_data-Holds, publish-Holds}
use winter_square.Queue.Mpsc.Frees.{
  looks-Holds, loads_next-Holds, test_pop-Holds, takes-Holds, free_node-Holds, advance_tail-Holds,
}
use native.Mathlib.Nat.{mod-eq_of_lt}

module _ {A : Type 0} where
  -- No claim is taken back, and the size stays.
  Grows : Threads A → Threads A → Type 0
  Grows s t = (length s.claims ≤ length t.claims) × (t.queue.size ≡ s.queue.size)

  test_push-Grows :
      (s : Threads A) (p : ℕ) (x : A) (head : ℕ) (sign : Sign) → Grows s (test_push s p x head sign)
  unfolding Grows test_push
  test_push-Grows s p x head Sign.zero_sign = (omega arith, refl)
  test_push-Grows s p x head Sign.negative = (omega arith, refl)
  test_push-Grows s p x head Sign.positive = (omega arith, refl)

  test_pop-Grows :
      (s : Threads A) (item : A) (tail : ℕ) (sign : Sign) → Grows s (test_pop s item tail sign)
  unfolding Grows test_pop
  test_pop-Grows s item tail Sign.zero_sign = (omega arith, refl)
  test_pop-Grows s item tail Sign.negative = (omega arith, refl)
  test_pop-Grows s item tail Sign.positive = (omega arith, refl)

  Step-Grows : {s t : Threads A} → Step s t → Grows s t
  unfolding Grows exchange_head write_data publish free_node advance_tail change_node
  Step-Grows {s = s} (exchanges p x head e same) =
      (omega (arith, length-append s.claims (x ∷ [])), refl)
  Step-Grows {s = s} (tests_push p x head seq e) = test_push-Grows s p x head (difference seq head)
  Step-Grows {s = s} (tests_pop item tail seq e) =
      test_pop-Grows s item tail (difference seq (add_u64 tail 1))
  Step-Grows (begin_push p x e) = (omega arith, refl)
  Step-Grows (loads_head p x e) = (omega arith, refl)
  Step-Grows (loads_sequence p x head node e found) = (omega arith, refl)
  Step-Grows (misses p x head e) = (omega arith, refl)
  Step-Grows (writes p x head e) = (omega arith, refl)
  Step-Grows (publishes p x head e) = (omega arith, refl)
  Step-Grows (begin_pop item e) = (omega arith, refl)
  Step-Grows (loads_next item tail node e found) = (omega arith, refl)
  Step-Grows (takes item tail node e found) = (omega arith, refl)
  Step-Grows (frees item tail e) = (omega arith, refl)
  Step-Grows (advances item tail e) = (omega arith, refl)

  Step-Holds :
      {s t : Threads A} → Step s t → length s.claims + s.queue.size < 2 ^ 63 → Holds s → Holds t
  Step-Holds (begin_push p x e) small h = moves-Holds h p (Producer.looping x) refl tt
  Step-Holds {s = s} (loads_head p x e) small h =
      moves-Holds h p (Producer.loaded_head x s.queue.head) refl (omega arith)
  Step-Holds (loads_sequence p x head node e found) small h =
      loads_sequence-Holds h p x head node small e found
  Step-Holds (tests_push p x head seq e) small h =
      test_push-Holds h p x head seq small e (difference seq head) refl
  Step-Holds (exchanges p x head e same) small h = exchange_head-Holds h p x head small e same
  Step-Holds (misses p x head e) small h = moves-Holds h p (Producer.looping x) refl tt
  Step-Holds (writes p x head e) small h = write_data-Holds h p x head e
  Step-Holds (publishes p x head e) small h = publish-Holds h p x head small e
  Step-Holds {s = s} (begin_pop item e) small h =
      looks-Holds h (Consumer.loaded_tail item s.queue.tail) (sym (ap freed_by e)) refl
  Step-Holds (loads_next item tail node e found) small h =
      loads_next-Holds h item tail node small e found
  Step-Holds (tests_pop item tail seq e) small h =
      test_pop-Holds h item tail seq small e (difference seq (add_u64 tail 1)) refl
  Step-Holds (takes item tail node e found) small h = takes-Holds h item tail node e found
  Step-Holds (frees item tail e) small h = free_node-Holds h item tail small e
  Step-Holds (advances item tail e) small h = advance_tail-Holds h item tail small e

  pub Reach-Holds :
      {s t : Threads A} → Reach s t → length t.claims + t.queue.size < 2 ^ 63 → Holds s → Holds t
  unfolding Grows
  Reach-Holds here small h = h
  Reach-Holds (next r st) small h =
      let (more, same) = Step-Grows st in
      Step-Holds st (omega arith) (Reach-Holds r (omega arith) h)

  number_nodes-at :
      (n i k : ℕ) (default : A)
      → k < n
      → get_elem? (number_nodes n i default) k
        ≡ some (record { sequence = i + k; content = default })
  unfolding number_nodes
  number_nodes-at zero i k default lt = absurd (omega arith)
  number_nodes-at (suc n) i zero default lt =
      ap (λ j. some (record { sequence = j; content = default })) (omega arith)
  number_nodes-at (suc n) i (suc k) default lt =
      number_nodes-at n (i + 1) k default (omega arith)
      ∙ ap (λ j. some (record { sequence = j; content = default })) (omega arith)

  pub initial-Holds :
      {size : ℕ} (default : A) → IsSize size → 2 ≤ size → Holds (initial (init size default))
  unfolding init node_at
  initial-Holds {size = size} default is_size two = record {
    is_size = is_size;
    two = two;
    head_lem = refl;
    tail_lem = refl;
    order = omega arith;
    room = omega arith;
    slots = λ t lo hi. inl (record {
      node = record { sequence = 0 + t; content = default };
      found =
          ap (get_elem? (number_nodes size 0 default))
            (and_mask is_size t ∙ mod-eq_of_lt (omega arith))
          ∙ number_nodes-at size 0 t default (omega arith);
      waiting = omega arith;
    });
    producing = λ p. tt;
    distinct = λ p q t e f. cc;
    consuming = tt;
    taken_lem = refl;
  }
