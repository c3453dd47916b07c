-- ===== src/Core/Parser/Law.antt =====
-- `NullParser` and `EchoParser` (core/parser/parser_interface.hpp) keep to the contract of `IParser`.
use winter_square.Common.{
  ◌<◌, ◌≡◌, refl, not, ◌||◌, ◌==◌, List, some, arith, lt→ltb, length, set, length-set, Bool-cases,
  inl, inr,
}
use winter_square.Common.Word.{add_u64}
use winter_square.Core.Types.{NormalizedMessage, is_valid}
use winter_square.Core.Parser.{
  IsParser, write, null_message, echo_message, null_parse, null_parser, echo_parse, echo_parser,
}

-- The one write of a parser that is asked for a message at least.
write-first :
    (output : List NormalizedMessage) (m : NormalizedMessage)
    → 0 < length output
    → write output 0 m ≡ some (set output 0 m)
unfolding write
write-first output m h = rw (lt→ltb 0 (length output) h)

-- `NullParser` and `EchoParser` keep to the contract of a parser: on a view of bytes whose length
-- is that of its buffer at most, and with `max_messages` slots, they return, count no more messages
-- than that, and keep the array's length.
pub test_parsers-IsParser : IsParser null_parser × IsParser echo_parser
unfolding null_parse echo_parse
test_parsers-IsParser = (
  record {
    safe = λ p view bytes output max_messages content are_bytes within room.
        elim (Bool-cases (max_messages == 0)) [
          | inl stop ↦ ((0, output, p), rw stop, omega arith, refl)
          | inr go ↦ (
            (1, set output 0 (null_message view), p),
            rw (go, write-first output (null_message view) (ground arith)),
            ground arith,
            length-set output 0 _,
          )
        ];
  },
  record {
    safe = λ p view bytes output max_messages content are_bytes within room.
        elim (Bool-cases (max_messages == 0 || not (is_valid view))) [
          | inl stop ↦ ((0, output, p), rw stop, omega arith, refl)
          | inr go ↦ (
            (1, set output 0 (echo_message view), add_u64 p 1),
            rw (go, write-first output (echo_message view) (ground arith)),
            ground arith,
            length-set output 0 _,
          )
        ];
  },
)
