-- ===== src/Core/Parser.antt =====
-- core/parser/parser_interface.hpp: what a protocol parser is, and the two parsers for tests.
-- The array `output` is a list; `none` is an access outside a buffer.
pub mod Law
use winter_square.Common.{
  ℕ, zero, suc, ◌+◌, ◌≤◌, ◌<◌, ◌≡◌, refl, Bool, List, Option, none, some, arith, ltb, not, ◌||◌,
  ◌==◌, if◌then◌else◌, get_elem?, set, length, All, ◌>>=◌,
}
use winter_square.Common.Int.{pos}
use winter_square.Common.Word.{add_u64}
use winter_square.Core.Types.{
  MessageView, is_valid, NormalizedMessage, blank, unknown, system_event,
}
use winter_square.Core.Statistics.{Statistics}

-- What `parse` returns: the number of messages, the array, and the parser afterwards.
abbrev pub Parsed : Type 0 → Type 0
Parsed P = ℕ × List NormalizedMessage × P

-- `IParser`, over the state `P` of a parser.
pub record Parser (P : Type 0) : Type 0 where
  pub parse : P → MessageView → List NormalizedMessage → ℕ → Option (Parsed P)
  pub initialize : P → P
  pub reset : P → P
  pub get_stats : P → Statistics → Statistics

-- A write to `output[i]`: `none` outside the array.
unfoldable pub write :
    List NormalizedMessage → ℕ → NormalizedMessage → Option (List NormalizedMessage)
write output i m = if ltb i (length output) then some (set output i m) else none

-- What each of the two writes.
abbrev pub null_message : MessageView → NormalizedMessage
null_message raw_packet = record blank {
  type = unknown;
  local_timestamp = raw_packet.timestamp;
  sequence = raw_packet.sequence;
}

abbrev pub echo_message : MessageView → NormalizedMessage
echo_message raw_packet = record blank {
  type = system_event;
  local_timestamp = raw_packet.timestamp;
  sequence = raw_packet.sequence;
  quantity = raw_packet.length;
}

-- `NullParser::parse`; the class keeps no state.
unfoldable pub null_parse :
    Unit {0} → MessageView → List NormalizedMessage → ℕ → Option (Parsed (Unit {0}))
null_parse p raw_packet output max_messages =
    if max_messages == 0
    then some (0, output, p)
    else do output' ← write output 0 (null_message raw_packet); some (1, output', p)

abbrev pub null_parser : Parser (Unit {0})
null_parser = record {
  parse = null_parse;
  initialize = λ p. p;
  reset = λ p. p;
  get_stats = λ p stats. stats;
}

-- `EchoParser`: its state is `parse_count_`, a `uint64_t`.
unfoldable pub echo_parse : ℕ → MessageView → List NormalizedMessage → ℕ → Option (Parsed ℕ)
echo_parse parse_count raw_packet output max_messages =
    if max_messages == 0 || not (is_valid raw_packet) then some (0, output, parse_count) else do
      output' ← write output 0 (echo_message raw_packet)
      some (1, output', add_u64 parse_count 1)

abbrev pub echo_stats : ℕ → Statistics → Statistics
echo_stats parse_count stats = record stats { messages_parsed = parse_count }

abbrev pub echo_parser : Parser ℕ
echo_parser = record {
  parse = echo_parse;
  initialize = λ p. p;
  reset = λ p. p;
  get_stats = echo_stats;
}

-- What the engine relies on: on a view of bytes that it may read, and with room for
-- `max_messages`, a parser returns, counts no more messages than that, and keeps the array's length.
pub record IsParser {P : Type 0} (ops : Parser P) : Type 0 where
  pub safe :
      (p : P) (view : MessageView) (bytes : List ℕ) (output : List NormalizedMessage)
      (max_messages : ℕ)
      → view.content ≡ some bytes
      → All (λ b. b < 256) bytes
      → view.length ≤ length bytes
      → max_messages ≤ length output
      → (r : Parsed P) × (ops.parse p view output max_messages ≡ some r)
        × (r.0 ≤ max_messages)
        × (length r.1 ≡ length output)
