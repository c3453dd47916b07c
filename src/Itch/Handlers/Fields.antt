-- ===== src/Itch/Handlers/Fields.antt =====
-- Fields of a message as the handlers of protocols/itch50/itch50_parser.hpp use them.
use winter_square.Common.{
  ℕ, zero, suc, List, [], ◌∷◌, Option, some, ◌==◌, if◌then◌else◌, get_elem?, drop, ◌>>=◌,
}

-- A field of one byte.
abbrev pub read_u8 : List ℕ → Option ℕ
read_u8 p = get_elem? p 0

-- `buy_sell_indicator == 'B' ? 0 : 1`
abbrev pub side_of : ℕ → ℕ
side_of indicator = if indicator == b'B' then 0 else 1

-- `std::string(p, n)`
abbrev pub read_chars : List ℕ → ℕ → Option (List ℕ)
read_chars p zero = some []
read_chars p (suc n) = do c ← get_elem? p 0; rest ← read_chars (drop 1 p) n; some (c ∷ rest)
