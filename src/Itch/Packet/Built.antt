-- ===== src/Itch/Packet/Built.antt =====
-- Messages of the generator, read back.
use winter_square.Common.{
  ℕ, ◌+◌, ◌*◌, ◌/◌, ◌%◌, ◌^◌, ◌<◌, ◌≡◌, ap, true, List, [], ◌∷◌, arith, bit_and, length,
}
use winter_square.Common.Bits.{bit_and_ones}
use winter_square.Core.Types.{NormalizedMessage}
use winter_square.Itch.Bytes.{big_endian}
use winter_square.Itch.Messages.{MessageType, of_byte, get_message_size}
use winter_square.Itch.Parser.{ItchParser}
use winter_square.Itch.Builder.{build_add_order, build_order_executed, build_trade}
use winter_square.Itch.Packet.Frames.{IsFramed}
use winter_square.Itch.Decode.Table.{decode}
use winter_square.Itch.Decode.Message.{is_handled, learn, answer, read_message}
use winter_square.Itch.Packet.Sent.{Sent, add_order, executed, traded, bytes_of, InRange, expected}

low_byte : (n : ℕ) → bit_and n 0xff ≡ n % 256
low_byte n = bit_and_ones 8 n

-- The number in the bytes that a `write_…` writes.
two_bytes : (v : ℕ) → v < 2 ^ 16 → bit_and (v / 2 ^ 8) 0xff * 256 + (bit_and v 0xff * 1 + 0) ≡ v
two_bytes v h = omega (arith, low_byte (v / 2 ^ 8), low_byte v)

four_bytes :
    (v : ℕ)
    → v < 2 ^ 32
    → bit_and (v / 2 ^ 24) 0xff * 256 ^ 3
        + (bit_and (v / 2 ^ 16) 0xff * 256 ^ 2
            + (bit_and (v / 2 ^ 8) 0xff * 256 + (bit_and v 0xff * 1 + 0)))
      ≡ v
four_bytes v h =
    omega (arith, low_byte (v / 2 ^ 24), low_byte (v / 2 ^ 16), low_byte (v / 2 ^ 8), low_byte v)

eight_bytes :
    (v : ℕ)
    → v < 2 ^ 64
    → bit_and (v / 2 ^ 56) 0xff * 256 ^ 7
        + (bit_and (v / 2 ^ 48) 0xff * 256 ^ 6
            + (bit_and (v / 2 ^ 40) 0xff * 256 ^ 5
                + (bit_and (v / 2 ^ 32) 0xff * 256 ^ 4
                    + (bit_and (v / 2 ^ 24) 0xff * 256 ^ 3
                        + (bit_and (v / 2 ^ 16) 0xff * 256 ^ 2
                            + (bit_and (v / 2 ^ 8) 0xff * 256 + (bit_and v 0xff * 1 + 0)))))))
      ≡ v
eight_bytes v h = omega (
  arith,
  low_byte (v / 2 ^ 56),
  low_byte (v / 2 ^ 48),
  low_byte (v / 2 ^ 40),
  low_byte (v / 2 ^ 32),
  low_byte (v / 2 ^ 24),
  low_byte (v / 2 ^ 16),
  low_byte (v / 2 ^ 8),
  low_byte v,
)

module _ (locate tracking time order : ℕ) (output : NormalizedMessage) (now : ℕ) where
  decode-executed :
      (shares match_number : ℕ)
      → InRange (executed locate tracking time order shares match_number)
      → decode MessageType.order_executed
          (build_order_executed locate tracking time order shares match_number)
          output
          now
        ≡ expected (executed locate tracking time order shares match_number) output now
  unfolding decode build_order_executed big_endian
  decode-executed shares match_number h = ground (
    arith,
    two_bytes locate,
    two_bytes tracking,
    eight_bytes time,
    eight_bytes order,
    four_bytes shares,
  )

  decode-add_order :
      (side shares price : ℕ) (stock : List ℕ)
      → InRange (add_order locate tracking time order side shares price stock)
      → decode MessageType.add_order
          (build_add_order locate tracking time order side shares stock price)
          output
          now
        ≡ expected (add_order locate tracking time order side shares price stock) output now
  unfolding decode build_add_order big_endian
  decode-add_order side shares price (a ∷ b ∷ c ∷ d ∷ e ∷ f ∷ g ∷ i ∷ []) h = ground (
    arith,
    two_bytes locate,
    two_bytes tracking,
    eight_bytes time,
    eight_bytes order,
    four_bytes shares,
    four_bytes price,
  )
  decode-add_order side shares price _ h = absurd (omega arith)

  decode-traded :
      (side shares price match_number : ℕ) (stock : List ℕ)
      → InRange (traded locate tracking time order side shares price match_number stock)
      → decode MessageType.trade
          (build_trade locate tracking time order side shares stock price match_number)
          output
          now
        ≡ expected
            (traded locate tracking time order side shares price match_number stock)
            output
            now
  unfolding decode build_trade big_endian
  decode-traded side shares price match_number (a ∷ b ∷ c ∷ d ∷ e ∷ f ∷ g ∷ i ∷ []) h = ground (
    arith,
    two_bytes locate,
    two_bytes tracking,
    eight_bytes time,
    eight_bytes order,
    four_bytes shares,
    four_bytes price,
  )
  decode-traded side shares price match_number _ h = absurd (omega arith)

-- `parse_message` fills `output` with what was sent.
pub read_message-bytes_of :
    (m : Sent) (s : ItchParser) (output : NormalizedMessage) (now : ℕ)
    → InRange m
    → read_message s (bytes_of m) (length (bytes_of m)) output now
      ≡ (true, expected m output now, s)
unfolding read_message answer is_handled learn get_message_size of_byte build_add_order
    build_order_executed build_trade
read_message-bytes_of (executed locate tracking time order shares match_number) s output now h =
    ap (λ o. (true, o, s))
      (decode-executed locate tracking time order output now shares match_number h)
read_message-bytes_of
      (add_order locate tracking time order side shares price (a ∷ b ∷ c ∷ d ∷ e ∷ f ∷ g ∷ i ∷ []))
      s output now h =
    ap (λ o. (true, o, s))
      (decode-add_order locate tracking time order output now side shares price
        (a ∷ b ∷ c ∷ d ∷ e ∷ f ∷ g ∷ i ∷ []) h)
read_message-bytes_of
      (traded locate tracking time order side shares price match_number
        (a ∷ b ∷ c ∷ d ∷ e ∷ f ∷ g ∷ i ∷ []))
      s output now h =
    ap (λ o. (true, o, s))
      (decode-traded locate tracking time order output now side shares price match_number
        (a ∷ b ∷ c ∷ d ∷ e ∷ f ∷ g ∷ i ∷ []) h)
read_message-bytes_of _ s output now h = absurd (omega arith)

byte-lt : (n : ℕ) → bit_and n 0xff < 256
byte-lt n = omega (arith, low_byte n)

-- What the generator builds can be framed.
pub bytes_of-IsFramed : (m : Sent) → InRange m → IsFramed (bytes_of m)
unfolding build_add_order build_order_executed build_trade
bytes_of-IsFramed (executed locate tracking time order shares match_number) h =
    omega (arith, byte-lt)
bytes_of-IsFramed
      (add_order locate tracking time order side shares price (a ∷ b ∷ c ∷ d ∷ e ∷ f ∷ g ∷ i ∷ []))
      h =
    omega (arith, byte-lt)
bytes_of-IsFramed
      (traded locate tracking time order side shares price match_number
        (a ∷ b ∷ c ∷ d ∷ e ∷ f ∷ g ∷ i ∷ []))
      h =
    omega (arith, byte-lt)
bytes_of-IsFramed _ h = absurd (omega arith)
