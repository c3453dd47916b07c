-- ===== src/Itch/Packet/Local.antt =====
-- `parse_message` looks at nothing behind the message that it is given.
use winter_square.Common.{
  ℕ, zero, suc, ◌+◌, ◌*◌, ◌^◌, ◌≤◌, ◌≡◌, refl, ap, ◌∙◌, true, List, [], ◌∷◌, ◌++◌, Option, none,
  some, arith, ltb, leb, ◌&&◌, length, take, drop, length-drop, Bool-cases, inl, inr,
}
use winter_square.Core.Types.{NormalizedMessage}
use winter_square.Itch.Bytes.{big_endian}
use winter_square.Itch.Messages.{MessageType, of_byte, get_message_size}
use winter_square.Itch.Parser.{ItchParser}
use winter_square.Itch.Decode.Fields.{u8}
use winter_square.Itch.Decode.Table.{decode}
use winter_square.Itch.Decode.Message.{is_handled, learn, answer, read_message}

drop-append : (o : ℕ) (m q : List ℕ) → o ≤ length m → drop o (m ++ q) ≡ drop o m ++ q
drop-append zero m q h = refl
drop-append (suc o) [] q h = absurd (omega arith)
drop-append (suc o) (x ∷ m) q h = drop-append o m q (omega arith)

big_endian-append : (n : ℕ) (m q : List ℕ) → n ≤ length m → big_endian n (m ++ q) ≡ big_endian n m
unfolding big_endian
big_endian-append zero m q h = refl
big_endian-append (suc n) [] q h = absurd (omega arith)
big_endian-append (suc n) (x ∷ m) q h =
    ap (λ t. x * 256 ^ n + t) (big_endian-append n m q (omega arith))

take-append : (n : ℕ) (m q : List ℕ) → n ≤ length m → take n (m ++ q) ≡ take n m
take-append zero m q h = refl
take-append (suc n) [] q h = absurd (omega arith)
take-append (suc n) (x ∷ m) q h = ap (λ t. x ∷ t) (take-append n m q (omega arith))

module _ (m q : List ℕ) where
  u8-append : (o : ℕ) → o + 1 ≤ length m → u8 (m ++ q) o ≡ u8 m o
  u8-append = go m
    where
      go : (m : List ℕ) (o : ℕ) → o + 1 ≤ length m → u8 (m ++ q) o ≡ u8 m o
      go [] o h = absurd (omega arith)
      go (x ∷ m) zero h = refl
      go (x ∷ m) (suc o) h = go m o (omega arith)

  number-append :
      (n o : ℕ) → o + n ≤ length m → big_endian n (drop o (m ++ q)) ≡ big_endian n (drop o m)
  number-append n o h =
      ap (big_endian n) (drop-append o m q (omega arith))
      ∙ big_endian-append n (drop o m) q (omega (arith, length-drop o m))

  decode-append :
      (t : MessageType) (output : NormalizedMessage) (now : ℕ)
      → is_handled t ≡ true
      → get_message_size (some t) ≤ length m
      → decode t (m ++ q) output now ≡ decode t m output now
  unfolding is_handled decode get_message_size
  decode-append MessageType.system_event output now e h =
      rw (number-append 8 4 (omega arith), number-append 2 2 (omega arith))
  decode-append MessageType.stock_directory output now e h = rw (
    number-append 8 4 (omega arith),
    number-append 2 0 (omega arith),
    number-append 2 2 (omega arith),
  )
  decode-append MessageType.add_order output now e h = rw (
    number-append 2 0 (omega arith),
    number-append 8 13 (omega arith),
    number-append 8 4 (omega arith),
    u8-append 21 (omega arith),
    number-append 4 22 (omega arith),
    number-append 4 34 (omega arith),
    number-append 2 2 (omega arith),
  )
  decode-append MessageType.add_order_mpid output now e h = rw (
    number-append 2 0 (omega arith),
    number-append 8 13 (omega arith),
    number-append 8 4 (omega arith),
    u8-append 21 (omega arith),
    number-append 4 22 (omega arith),
    number-append 4 34 (omega arith),
    number-append 2 2 (omega arith),
  )
  decode-append MessageType.order_executed output now e h = rw (
    number-append 2 0 (omega arith),
    number-append 8 13 (omega arith),
    number-append 8 4 (omega arith),
    number-append 4 21 (omega arith),
    number-append 2 2 (omega arith),
  )
  decode-append MessageType.order_executed_with_price output now e h = rw (
    number-append 2 0 (omega arith),
    number-append 8 13 (omega arith),
    number-append 8 4 (omega arith),
    number-append 4 21 (omega arith),
    number-append 4 34 (omega arith),
    number-append 2 2 (omega arith),
  )
  decode-append MessageType.order_cancel output now e h = rw (
    number-append 2 0 (omega arith),
    number-append 8 13 (omega arith),
    number-append 8 4 (omega arith),
    number-append 4 21 (omega arith),
    number-append 2 2 (omega arith),
  )
  decode-append MessageType.order_delete output now e h = rw (
    number-append 2 0 (omega arith),
    number-append 8 13 (omega arith),
    number-append 8 4 (omega arith),
    number-append 2 2 (omega arith),
  )
  decode-append MessageType.order_replace output now e h = rw (
    number-append 2 0 (omega arith),
    number-append 8 21 (omega arith),
    number-append 8 4 (omega arith),
    number-append 4 29 (omega arith),
    number-append 4 33 (omega arith),
    number-append 2 2 (omega arith),
  )
  decode-append MessageType.trade output now e h = rw (
    number-append 2 0 (omega arith),
    number-append 8 13 (omega arith),
    number-append 8 4 (omega arith),
    u8-append 21 (omega arith),
    number-append 4 22 (omega arith),
    number-append 4 34 (omega arith),
    number-append 2 2 (omega arith),
  )
  decode-append _ output now e h = refl

  learn-append :
      (t : MessageType) (s : ItchParser)
      → get_message_size (some t) ≤ length m
      → learn t (m ++ q) s ≡ learn t m s
  unfolding learn get_message_size
  learn-append MessageType.stock_directory s h = rw (
    number-append 2 0 (omega arith),
    drop-append 13 m q (omega arith),
    take-append 8 (drop 13 m) q (omega (arith, length-drop 13 m)),
  )
  learn-append _ s h = refl

  answer-append :
      (t : Option MessageType) (s : ItchParser) (output : NormalizedMessage) (now : ℕ)
      → answer t s (m ++ q) (length m) output now ≡ answer t s m (length m) output now
  unfolding answer
  answer-append none s output now = refl
  answer-append (some t) s output now =
      elim (Bool-cases (is_handled t && leb (get_message_size (some t)) (length m))) [
        | inl whole ↦ rw (
          whole,
          decode-append t output now (both whole).0 (both whole).1,
          learn-append t s (both whole).1,
        )
        | inr other ↦ rw other
      ]
    where
      both :
          (is_handled t && leb (get_message_size (some t)) (length m)) ≡ true
          → (is_handled t ≡ true) × (get_message_size (some t) ≤ length m)
      both e = ground arith

  -- The answer to a message is the same whatever follows it in the buffer.
  pub read_message-append :
      (s : ItchParser) (output : NormalizedMessage) (now : ℕ)
      → read_message s (m ++ q) (length m) output now ≡ read_message s m (length m) output now
  unfolding read_message
  read_message-append s output now = elim (Bool-cases (ltb (length m) 13)) [
    | inl short ↦ rw short
    | inr long ↦
        rw (long, u8-append 12 (ground arith)) (answer-append (of_byte (u8 m 12)) s output now)
  ]
