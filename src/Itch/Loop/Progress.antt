-- ===== src/Itch/Loop/Progress.antt =====
-- What a round of the loop of `parse` moves: the counters, the place in the packet, the slots.
use winter_square.Common.{
  ℕ, zero, suc, ◌+◌, ◌-◌, ◌*◌, ◌≤◌, ◌<◌, ◌≡◌, refl, ap, ◌∙◌, Bool, true, false, List, [], ◌∷◌,
  arith, length, get_elem?, set, All, All-drop, length-drop, length-set, get_elem?-set_ne,
}
use winter_square.Core.Types.{NormalizedMessage}
use winter_square.Itch.Bytes.{IsByte}
use winter_square.Itch.Parser.{ItchParser, Cursor}
use winter_square.Itch.Loop.Round.{announced, wants_more, is_malformed, slot_at, advance}

-- The buffers hold what the loop is told of them.
pub record Fits (max_messages : ℕ) (c : Cursor) : Type 0 where
  pub bytes : All IsByte c.rest
  pub within : c.remaining ≤ length c.rest
  pub room : max_messages ≤ length c.output
  pub counted : c.parsed ≤ max_messages

-- From `c` to `d` the loop has taken messages of 14 bytes at least, each behind its two bytes of
-- length, and has written the slots that it counted and no other.
pub record Progress (c d : Cursor) : Type 0 where
  pub grows : c.parsed ≤ d.parsed
  pub paid : 16 * d.parsed ≤ 16 * c.parsed + (c.remaining - d.remaining)
  pub shrinks : d.remaining ≤ c.remaining
  pub same_length : length d.output ≡ length c.output
  pub before : (j : ℕ) → j < c.parsed → get_elem? d.output j ≡ get_elem? c.output j
  pub after : (j : ℕ) → d.parsed ≤ j → get_elem? d.output j ≡ get_elem? c.output j

-- Neither is about the parser's counters.
pub Progress-parser : (c : Cursor) (s : ItchParser) → Progress c (record c { parser = s })
Progress-parser c s = record {
  grows = omega arith;
  paid = omega arith;
  shrinks = omega arith;
  same_length = refl;
  before = λ j h. refl;
  after = λ j h. refl;
}

pub Fits-parser :
    {max_messages : ℕ} {c : Cursor}
    → Fits max_messages c
    → (s : ItchParser) → Fits max_messages (record c { parser = s })
Fits-parser fits s = record {
  bytes = fits.bytes;
  within = fits.within;
  room = fits.room;
  counted = fits.counted;
}

pub Progress-trans : {c d e : Cursor} → Progress c d → Progress d e → Progress c e
Progress-trans f g = record {
  grows = omega arith;
  paid = omega arith;
  shrinks = omega arith;
  same_length = g.same_length ∙ f.same_length;
  before = λ j h. g.before j (omega arith) ∙ f.before j h;
  after = λ j h. g.after j h ∙ f.after j (omega arith);
}

set-slot_at : (output : List NormalizedMessage) (i : ℕ) → set output i (slot_at output i) ≡ output
set-slot_at [] i = refl
set-slot_at (x ∷ xs) zero = refl
set-slot_at (x ∷ xs) (suc i) = rw (set-slot_at xs i)

module _ (max_messages now : ℕ) (c : Cursor) (fits : Fits max_messages c)
    (more : wants_more c.remaining c.parsed max_messages ≡ true)
    (sound : is_malformed (announced c.rest) c.remaining ≡ false) where
  pub sizes : (3 ≤ announced c.rest) × (announced c.rest ≤ c.remaining) × (c.parsed < max_messages)
  sizes = ground arith

  pub advance-Fits :
      (r : Bool × NormalizedMessage × ItchParser) → Fits max_messages (advance max_messages now c r)
  advance-Fits (done, slot, s') = record {
    bytes = All-drop IsByte (announced c.rest) c.rest fits.bytes;
    within = omega (arith, length-drop (announced c.rest) c.rest, fits.within, sizes);
    room = omega (arith, length-set c.output c.parsed slot, fits.room);
    counted = ground (arith, sizes);
  }

  pub advance-Progress :
      (r : Bool × NormalizedMessage × ItchParser)
      → (r.0 ≡ false → r.1 ≡ slot_at c.output c.parsed)
      → (r.0 ≡ true → 14 ≤ announced c.rest - 2)
      → Progress c (advance max_messages now c r)
  advance-Progress (true, slot, s') same long = record {
    grows = omega arith;
    paid = omega (arith, sizes, long refl);
    shrinks = omega arith;
    same_length = length-set c.output c.parsed slot;
    before = λ j h. get_elem?-set_ne c.output slot (omega arith);
    after = λ j h. get_elem?-set_ne c.output slot (omega arith);
  }
  advance-Progress (false, slot, s') same long = record {
    grows = omega arith;
    paid = omega arith;
    shrinks = omega arith;
    same_length = length-set c.output c.parsed slot;
    before = λ j h. ap (λ o. get_elem? o j) unchanged;
    after = λ j h. ap (λ o. get_elem? o j) unchanged;
  }
    where
      unchanged : set c.output c.parsed slot ≡ c.output
      unchanged = ap (set c.output c.parsed) (same refl) ∙ set-slot_at c.output c.parsed
