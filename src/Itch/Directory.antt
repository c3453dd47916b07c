-- ===== src/Itch/Directory.antt =====
-- The size of a stock directory message: `StockDirectoryMessage::SIZE` against the fields of the
-- structure (protocols/itch50/itch50_messages.hpp).
use winter_square.Common.{ℕ, ◌≡◌, refl, sym, ◌∙◌, false, List, some, arith, length, get_elem?, All}
use winter_square.Core.Types.{NormalizedMessage}
use winter_square.Itch.Bytes.{IsByte}
use winter_square.Itch.Layout
use winter_square.Itch.Layout.{size_of}
use winter_square.Itch.Messages.{MessageType, code, of_byte, of_byte_iff, get_message_size}
use winter_square.Itch.Parser.{ItchParser, parse_message}
use winter_square.Itch.Decode.Fields.{u8, get_elem?-some}
use winter_square.Itch.Decode.Message.{is_handled, answer, read_message, parse_message-read_message}
use mathlib.Core.Option.{some-injective}

-- The parser refuses a stock directory message of exactly the bytes of the packed structure: it
-- takes no message, learns no symbol and counts no error.
pub stock_directory_refused :
    (s : ItchParser) (p : List ℕ) (output : NormalizedMessage) (now : ℕ)
    → All IsByte p
    → length p ≡ size_of Layout.stock_directory
    → get_elem? p 12 ≡ some b'R'
    → parse_message s p (length p) output now ≡ some (false, output, s)
unfolding size_of read_message answer is_handled get_message_size code
stock_directory_refused s p output now bytes size type =
    let byte : u8 p 12 ≡ b'R' =
      some-injective (u8 p 12) b'R' (sym (get_elem?-some p 12 (omega arith)) ∙ type) in
    let named : of_byte b'R' ≡ some MessageType.stock_directory =
      (of_byte_iff b'R' MessageType.stock_directory).1 refl in
    parse_message-read_message s p bytes (length p) (omega arith) output now
    ∙ rw (size, byte, named) refl
