-- ===== src/Core/Engine/Threads/Flow.antt =====
-- A call on a queue keeps what went in and what came out in step.
use winter_square.Common.{
  ℕ, ◌≡◌, sym, ap, ap₂, ◌∙◌, Bool, true, false, List, [], ◌∷◌, ◌++◌, arith, ltb, if◌then◌else◌,
  length,
}
use winter_square.Core.Engine.Threads.Log.{accepted, accepted-append}
use winter_square.Core.Engine.Threads.Holds.{Flows}
use winter_square.Queue.Fifo
use winter_square.Queue.Spsc.{SpscQueue, push, pop, capacity}
use winter_square.Queue.Spsc.Ring.{push-IsValid, pop-IsValid}
use winter_square.Queue.Spsc.Refine.{contents, push_refines, pop_refines}
use mathlib.Core.List.{append_assoc, append-nil}

module _ {A : Type 0} where
  -- The FIFO gains what it accepts, and loses what it returns.
  push_gains :
      (cap : ℕ) (xs : List A) (x : A) {b : Bool} {ys : List A}
      → ◌≡◌ {A = Bool × List A} (b, ys) (Fifo.push cap xs x)
      → ys ≡ xs ++ accepted ((x, b) ∷ [])
  unfolding Fifo.push
  push_gains cap xs x e = answer (ltb (length xs) cap) e
    where
      answer :
          (t : Bool) {b : Bool} {ys : List A}
          → ◌≡◌ {A = Bool × List A} (b, ys) (if t then (true, xs ++ x ∷ []) else (false, xs))
          → ys ≡ xs ++ accepted ((x, b) ∷ [])
      answer true o = rw (ap (λ r. r.0) o) (ap (λ r. r.1) o)
      answer false o = rw (ap (λ r. r.0) o) (ap (λ r. r.1) o ∙ sym (append-nil xs))

  pop_loses :
      (xs : List A) (item : A) {out : A} {ys : List A}
      → ◌≡◌ {A = Bool × A × List A} (true, out, ys) (Fifo.pop xs item)
      → xs ≡ out ∷ ys
  unfolding Fifo.pop
  pop_loses [] item e = ground (arith, ap (λ r. r.0) e)
  pop_loses (x ∷ xs) item e = ap₂ ◌∷◌ (sym (ap (λ r. r.1) e)) (sym (ap (λ r. r.2) e))

  pop_keeps :
      (xs : List A) (item : A) {out : A} {ys : List A}
      → ◌≡◌ {A = Bool × A × List A} (false, out, ys) (Fifo.pop xs item)
      → ys ≡ xs
  unfolding Fifo.pop
  pop_keeps [] item e = ap (λ r. r.2) e
  pop_keeps (x ∷ xs) item e = cc

  module _ {q : SpscQueue A} {put : List (A × Bool)} {taken : List A} (f : Flows q put taken) where
    pub push-Flows : (x : A) → Flows (push q x).1 (put ++ (x, (push q x).0) ∷ []) taken
    push-Flows x = record {
      valid = push-IsValid x f.valid;
      flow =
          accepted-append put ((x, (push q x).0) ∷ [])
          ∙ ap (λ l. l ++ accepted ((x, (push q x).0) ∷ [])) f.flow
          ∙ append_assoc taken (contents q) (accepted ((x, (push q x).0) ∷ []))
          ∙ ap (λ l. taken ++ l)
              (sym (push_gains (capacity q) (contents q) x (push_refines f.valid x)));
    }

    pub pop-Flows :
        (item : A) → (pop q item).0 ≡ true → Flows (pop q item).2 put (taken ++ (pop q item).1 ∷ [])
    pop-Flows item got = record {
      valid = pop-IsValid item f.valid;
      flow =
          f.flow
          ∙ ap (λ l. taken ++ l)
              (pop_loses (contents q) item (
                ap (λ b. (b, (pop q item).1, contents (pop q item).2)) (sym got)
                ∙ pop_refines f.valid item))
          ∙ sym (append_assoc taken ((pop q item).1 ∷ []) (contents (pop q item).2));
    }

    pub pop_none-Flows : (item : A) → (pop q item).0 ≡ false → Flows (pop q item).2 put taken
    pop_none-Flows item none = record {
      valid = pop-IsValid item f.valid;
      flow =
          f.flow
          ∙ ap (λ l. taken ++ l)
              (sym (
                pop_keeps (contents q) item (
                  ap (λ b. (b, (pop q item).1, contents (pop q item).2)) (sym none)
                  ∙ pop_refines f.valid item)));
    }
