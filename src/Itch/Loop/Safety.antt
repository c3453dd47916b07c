-- ===== src/Itch/Loop/Safety.antt =====
-- `parse` stays inside the packet and inside `output`, ends, and writes the slots that it counts.
use winter_square.Common.{
  ℕ, zero, suc, ◌+◌, ◌*◌, ◌≤◌, ◌<◌, ◌≡◌, refl, ap, ◌∙◌, false, List, Option, some, arith, ◌||◌, not,
  ◌==◌, length, get_elem?, drop, All, Bool-cases, inl, inr, ◌>>=◌,
}
use winter_square.Common.Word.{add_u64}
use winter_square.Core.Types.{NormalizedMessage, MessageView, is_valid}
use winter_square.Core.Parser.{Parsed}
use winter_square.Itch.Bytes.{IsByte}
use winter_square.Itch.Parser.{
  ItchParser, Cursor, Turn, leave, again, turn, parse_loop, parse_from, parse,
}
use winter_square.Itch.Decode.Message.{read_message_undone, read_message_done}
use winter_square.Itch.Loop.Round.{
  announced, wants_more, is_malformed, slot_at, advance, message_answer, turn_stops, turn_fails,
  turn_goes,
}
use winter_square.Itch.Loop.Progress.{
  Fits, Progress, Progress-parser, Fits-parser, Progress-trans, sizes, advance-Fits,
  advance-Progress,
}

-- What holds after one round.
abbrev AfterTurn : ℕ → Cursor → Turn → Type 0
AfterTurn max_messages c (leave d) = Fits max_messages d × Progress c d
AfterTurn max_messages c (again d) =
    Fits max_messages d × Progress c d × (d.remaining + 3 ≤ c.remaining)

turn-AfterTurn :
    (max_messages now : ℕ) (c : Cursor)
    → Fits max_messages c
    → (t : Turn) × (turn max_messages now c ≡ some t) × AfterTurn max_messages c t
turn-AfterTurn max_messages now c fits =
    elim (Bool-cases (wants_more c.remaining c.parsed max_messages)) [
      | inr done ↦ (leave c, turn_stops max_messages now c done, (fits, Progress-parser c c.parser))
      | inl more ↦ elim (Bool-cases (is_malformed (announced c.rest) c.remaining)) [
        | inl bad ↦ (
          _,
          turn_fails max_messages now c fits.bytes fits.within more bad,
          (Fits-parser fits _, Progress-parser c _),
        )
        | inr good ↦
            let r = message_answer max_messages now c in
            (
              again (advance max_messages now c r),
              turn_goes max_messages now c fits.bytes fits.within more good fits.room,
              (
                advance-Fits max_messages now c fits more good r,
                advance-Progress max_messages now c fits more good r
                    (read_message_undone c.parser (drop 2 c.rest) _ _ now)
                    (read_message_done c.parser (drop 2 c.rest) _ (slot_at c.output c.parsed) now),
                omega (arith, sizes max_messages now c fits more good),
              ),
            )
      ]
    ]

-- What holds when the loop is left.
abbrev pub Reaches : ℕ → Cursor → Option Cursor → Type 0
Reaches max_messages c r = (d : Cursor) × (r ≡ some d) × Fits max_messages d × Progress c d

follow :
    (fuel max_messages now : ℕ) (c : Cursor) (t : Turn)
    → turn max_messages now c ≡ some t
    → AfterTurn max_messages c t
    → ((d : Cursor)
        → Fits max_messages d
        → d.remaining + 3 ≤ c.remaining
        → Reaches max_messages d (parse_loop fuel max_messages now d))
    → Reaches max_messages c (parse_loop (suc fuel) max_messages now c)
unfolding parse_loop
follow fuel max_messages now c (leave d) e (f, g) loop = (d, rw e, f, g)
follow fuel max_messages now c (again d) e (f, g, h) loop =
    let (last, e', f', g') = loop d f h in (last, rw e e', f', Progress-trans g g')

-- With more rounds than bytes the loop ends, with every access in range.
pub parse_loop-Reaches :
    (fuel max_messages now : ℕ) (c : Cursor)
    → Fits max_messages c
    → c.remaining < fuel
    → Reaches max_messages c (parse_loop fuel max_messages now c)
parse_loop-Reaches zero max_messages now c fits enough = absurd (omega arith)
parse_loop-Reaches (suc fuel) max_messages now c fits enough =
    let (t, e, after) = turn-AfterTurn max_messages now c fits in
    follow fuel max_messages now c t e after
      (λ d f h. parse_loop-Reaches fuel max_messages now d f (omega arith))

-- What a caller of `parse` may rely on.
pub record IsSafe (view : MessageView) (output : List NormalizedMessage) (max_messages : ℕ)
    (r : Parsed ItchParser) : Type 0 where
  pub counted : r.0 ≤ max_messages
  pub paid : 16 * r.0 ≤ view.length
  pub same_length : length r.1 ≡ length output
  pub untouched : (j : ℕ) → r.0 ≤ j → get_elem? r.1 j ≡ get_elem? output j

parse_from-IsSafe :
    (s : ItchParser) (p : List ℕ) (view : MessageView) (output : List NormalizedMessage)
    (max_messages : ℕ)
    → All IsByte p
    → view.length ≤ length p
    → max_messages ≤ length output
    → (r : Parsed ItchParser) × (parse_from s p view output max_messages ≡ some r)
      × IsSafe view output max_messages r
unfolding parse_from
parse_from-IsSafe s p view output max_messages bytes within room =
    let c : Cursor = record {
      parser = s;
      rest = p;
      remaining = view.length;
      parsed = 0;
      output = output;
    } in
    let (d, e, f, g) =
      parse_loop-Reaches (suc view.length) max_messages view.timestamp c
        (record { bytes = bytes; within = within; room = room; counted = omega arith })
        (omega arith) in
    (
      (
        d.parsed,
        d.output,
        record d.parser { messages_parsed = add_u64 d.parser.messages_parsed d.parsed },
      ),
      rw e,
      record {
        counted = f.counted;
        paid = omega (arith, g.paid);
        same_length = g.same_length;
        untouched = g.after;
      },
    )

-- A view that passes the first test is parsed from its buffer.
pub parse_valid :
    (s : ItchParser) (view : MessageView) (p : List ℕ) (output : List NormalizedMessage)
    (max_messages : ℕ)
    → view.content ≡ some p
    → (not (is_valid view) || max_messages == 0) ≡ false
    → parse s view output max_messages ≡ parse_from s p view output max_messages
unfolding parse
parse_valid s view p output max_messages content something =
    rw something (ap (λ o. o >>= λ q. parse_from s q view output max_messages) content)

-- On any bytes behind a pointer that is not null, well formed or not, `parse` returns: no read leaves the packet and no write leaves
-- `output`, if the view's length is that of its buffer at most and `output` has `max_messages`
-- slots. It counts at most `max_messages` messages and one for each 16 bytes of the packet, and
-- writes no slot from that count on.
pub parse-IsSafe :
    (s : ItchParser) (view : MessageView) (p : List ℕ) (output : List NormalizedMessage)
    (max_messages : ℕ)
    → view.content ≡ some p
    → All IsByte p
    → view.length ≤ length p
    → max_messages ≤ length output
    → (r : Parsed ItchParser) × (parse s view output max_messages ≡ some r)
      × IsSafe view output max_messages r
unfolding parse
parse-IsSafe s view p output max_messages content bytes within room =
    elim (Bool-cases (not (is_valid view) || max_messages == 0)) [
      | inl nothing ↦ (
        (0, output, s),
        rw nothing,
        record {
          counted = omega arith;
          paid = omega arith;
          same_length = refl;
          untouched = λ j h. refl;
        },
      )
      | inr something ↦
          let (r, e, safe) = parse_from-IsSafe s p view output max_messages bytes within room in
          (r, parse_valid s view p output max_messages content something ∙ e, safe)
    ]
