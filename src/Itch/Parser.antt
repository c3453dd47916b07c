-- ===== src/Itch/Parser.antt =====
-- `ItchParser` of protocols/itch50/itch50_parser.hpp: from a packet to normalized messages.
-- `none` is an access outside the packet's buffer or outside `output`, or a loop out of fuel.
use winter_square.Common.{
  ℕ, zero, suc, ◌+◌, ◌-◌, Bool, false, List, [], Option, none, some, ltb, leb, ◌==◌, ◌&&◌, ◌||◌,
  not, if◌then◌else◌, get_elem?, drop, ◌>>=◌,
}
use winter_square.Common.Word.{add_u64}
use winter_square.Core.Types.{MessageView, is_valid, NormalizedMessage}
use winter_square.Core.Statistics.{Statistics}
use winter_square.Core.Parser.{Parser, Parsed, write}
use winter_square.Itch.Bytes.{read_u16_be}
use winter_square.Itch.Messages.{MessageType, of_byte}
use winter_square.Itch.Handlers
use winter_square.Itch.Handlers.{StockMap}

pub record ItchParser : Type 0 where
  pub messages_parsed : ℕ  -- uint64_t
  pub parse_errors : ℕ  -- uint64_t
  pub stock_map : StockMap

abbrev pub initial : ItchParser
initial = record { messages_parsed = 0; parse_errors = 0; stock_map = [] }

abbrev pub count_error : ItchParser → ItchParser
count_error s = record s { parse_errors = add_u64 s.parse_errors 1 }

-- The result of a handler that leaves the parser alone.
abbrev pub keep :
    ItchParser → Option (Bool × NormalizedMessage) → Option (Bool × NormalizedMessage × ItchParser)
keep s none = none
keep s (some (done, output)) = some (done, output, s)

abbrev pub keep_map :
    ItchParser
    → Option (Bool × NormalizedMessage × StockMap)
    → Option (Bool × NormalizedMessage × ItchParser)
keep_map s none = none
keep_map s (some (done, output, m)) = some (done, output, record s { stock_map = m })

-- The `switch` of `parse_message`; a type with no handler is skipped.
unfoldable pub handle :
    Option MessageType
    → ItchParser
    → List ℕ
    → ℕ
    → NormalizedMessage
    → ℕ
    → Option (Bool × NormalizedMessage × ItchParser)
handle (some MessageType.system_event) s p length output now =
    keep s (Handlers.parse_system_event p length output now)
handle (some MessageType.stock_directory) s p length output now =
    keep_map s (Handlers.parse_stock_directory s.stock_map p length output now)
handle (some MessageType.add_order) s p length output now =
    keep s (Handlers.parse_add_order p length output now)
handle (some MessageType.add_order_mpid) s p length output now =
    keep s (Handlers.parse_add_order_mpid p length output now)
handle (some MessageType.order_executed) s p length output now =
    keep s (Handlers.parse_order_executed p length output now)
handle (some MessageType.order_executed_with_price) s p length output now =
    keep s (Handlers.parse_order_executed_with_price p length output now)
handle (some MessageType.order_cancel) s p length output now =
    keep s (Handlers.parse_order_cancel p length output now)
handle (some MessageType.order_delete) s p length output now =
    keep s (Handlers.parse_order_delete p length output now)
handle (some MessageType.order_replace) s p length output now =
    keep s (Handlers.parse_order_replace p length output now)
handle (some MessageType.trade) s p length output now =
    keep s (Handlers.parse_trade p length output now)
handle _ s p length output now = some (false, output, s)

unfoldable pub parse_message :
    ItchParser → List ℕ → ℕ → NormalizedMessage → ℕ → Option (Bool × NormalizedMessage × ItchParser)
parse_message s p length output local_timestamp =
    if ltb length 13
    then some (false, output, count_error s)
    else do msg_type ← get_elem? p 12; handle (of_byte msg_type) s p length output local_timestamp

-- The variables of the loop of `parse`: `rest` is `data + offset`, `parsed` is `messages_parsed`.
pub record Cursor : Type 0 where
  pub parser : ItchParser
  pub rest : List ℕ
  pub remaining : ℕ
  pub parsed : ℕ
  pub output : List NormalizedMessage

-- How a round of the loop ends: by its test or a `break`, or with the next round.
pub data Turn : Type 0 where
  leave : Cursor → Turn
  again : Cursor → Turn

-- `offset` and `remaining` move by `msg_length <= remaining`, so that neither wraps.
unfoldable pub next_message : ℕ → Cursor → ℕ → Option Turn
next_message now c msg_length =
    if ltb msg_length 3 || ltb c.remaining msg_length
    then some (leave (record c { parser = count_error c.parser }))
    else do
      slot ← get_elem? c.output c.parsed
      (done, slot', parser') ← parse_message c.parser (drop 2 c.rest) (msg_length - 2) slot now
      output' ← write c.output c.parsed slot'
      some (
          again (record {
            parser = parser';
            rest = drop msg_length c.rest;
            remaining = c.remaining - msg_length;
            parsed = if done then c.parsed + 1 else c.parsed;
            output = output';
          }))

unfoldable pub turn : ℕ → ℕ → Cursor → Option Turn
turn max_messages now c =
    if leb 3 c.remaining && ltb c.parsed max_messages
    then read_u16_be c.rest >>= next_message now c
    else some (leave c)

abbrev pub proceed : (Cursor → Option Cursor) → Turn → Option Cursor
proceed continue (leave c) = some c
proceed continue (again c) = continue c

-- The first argument bounds the rounds.
unfoldable pub parse_loop : ℕ → ℕ → ℕ → Cursor → Option Cursor
parse_loop zero max_messages now c = none
parse_loop (suc fuel) max_messages now c =
    turn max_messages now c >>= proceed (parse_loop fuel max_messages now)

-- Each round takes three bytes at least, so that one round more than there are bytes is enough.
unfoldable pub parse_from :
    ItchParser → List ℕ → MessageView → List NormalizedMessage → ℕ → Option (Parsed ItchParser)
parse_from s p raw_packet output max_messages = do
  c ←
      parse_loop (suc raw_packet.length) max_messages raw_packet.timestamp (record {
        parser = s;
        rest = p;
        remaining = raw_packet.length;
        parsed = 0;
        output = output;
      })
  let total = add_u64 c.parser.messages_parsed c.parsed
  some (c.parsed, c.output, record c.parser { messages_parsed = total })

unfoldable pub parse :
    ItchParser → MessageView → List NormalizedMessage → ℕ → Option (Parsed ItchParser)
unfolding parse_from
parse s raw_packet output max_messages =
    if not (is_valid raw_packet) || max_messages == 0
    then some (0, output, s)
    else do p ← raw_packet.content; parse_from s p raw_packet output max_messages

abbrev pub get_stats : ItchParser → Statistics → Statistics
get_stats s stats = record stats {
  messages_parsed = s.messages_parsed;
  parse_errors = s.parse_errors;
}

abbrev pub reset : ItchParser → ItchParser
reset s = record { messages_parsed = 0; parse_errors = 0; stock_map = [] }

abbrev pub itch_parser : Parser ItchParser
itch_parser = record { parse = parse; initialize = λ s. s; reset = reset; get_stats = get_stats }
