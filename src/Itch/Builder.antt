-- ===== src/Itch/Builder.antt =====
-- The message generator of examples/itch_generator.cpp: ITCH messages and packets as bytes.
-- A `write_…` writes at an index of the message under construction.
use winter_square.Common.{
  ℕ, zero, suc, ◌+◌, ◌/◌, ◌%◌, ◌^◌, List, [], ◌∷◌, ◌++◌, bit_and, length, set, replicate,
}

unfoldable pub write_u16_be : List ℕ → ℕ → ℕ → List ℕ
write_u16_be msg dest value =
    set (set msg dest (bit_and (value / 2 ^ 8) 0xff)) (dest + 1) (bit_and value 0xff)

unfoldable pub write_u32_be : List ℕ → ℕ → ℕ → List ℕ
write_u32_be msg dest value =
    let a = set msg dest (bit_and (value / 2 ^ 24) 0xff) in
    let b = set a (dest + 1) (bit_and (value / 2 ^ 16) 0xff) in
    let c = set b (dest + 2) (bit_and (value / 2 ^ 8) 0xff) in set c (dest + 3) (bit_and value 0xff)

unfoldable pub write_u64_be : List ℕ → ℕ → ℕ → List ℕ
write_u64_be msg dest value =
    let a = set msg dest (bit_and (value / 2 ^ 56) 0xff) in
    let b = set a (dest + 1) (bit_and (value / 2 ^ 48) 0xff) in
    let c = set b (dest + 2) (bit_and (value / 2 ^ 40) 0xff) in
    let d = set c (dest + 3) (bit_and (value / 2 ^ 32) 0xff) in
    let e = set d (dest + 4) (bit_and (value / 2 ^ 24) 0xff) in
    let f = set e (dest + 5) (bit_and (value / 2 ^ 16) 0xff) in
    let g = set f (dest + 6) (bit_and (value / 2 ^ 8) 0xff) in set g (dest + 7) (bit_and value 0xff)

-- `memcpy(&msg[dest], stock, n)`
unfoldable pub copy_chars : List ℕ → ℕ → List ℕ → ℕ → List ℕ
copy_chars msg dest stock zero = msg
copy_chars msg dest [] (suc n) = msg
copy_chars msg dest (x ∷ stock) (suc n) = copy_chars (set msg dest x) (dest + 1) stock n

unfoldable pub build_add_order : ℕ → ℕ → ℕ → ℕ → ℕ → ℕ → List ℕ → ℕ → List ℕ
unfolding write_u16_be write_u32_be write_u64_be copy_chars
build_add_order stock_locate tracking timestamp order_ref side shares stock price =
    let a = write_u16_be (replicate 38 0) 0 stock_locate in
    let b = write_u16_be a 2 tracking in
    let c = write_u64_be b 4 timestamp in
    let d = set c 12 b'A' in
    let e = write_u64_be d 13 order_ref in
    let f = set e 21 side in
    let g = write_u32_be f 22 shares in let h = copy_chars g 26 stock 8 in write_u32_be h 34 price

unfoldable pub build_order_executed : ℕ → ℕ → ℕ → ℕ → ℕ → ℕ → List ℕ
unfolding write_u16_be write_u32_be write_u64_be
build_order_executed stock_locate tracking timestamp order_ref shares match_number =
    let a = write_u16_be (replicate 33 0) 0 stock_locate in
    let b = write_u16_be a 2 tracking in
    let c = write_u64_be b 4 timestamp in
    let d = set c 12 b'E' in
    let e = write_u64_be d 13 order_ref in
    let f = write_u32_be e 21 shares in write_u64_be f 25 match_number

unfoldable pub build_trade : ℕ → ℕ → ℕ → ℕ → ℕ → ℕ → List ℕ → ℕ → ℕ → List ℕ
unfolding write_u16_be write_u32_be write_u64_be copy_chars
build_trade stock_locate tracking timestamp order_ref side shares stock price match_number =
    let a = write_u16_be (replicate 46 0) 0 stock_locate in
    let b = write_u16_be a 2 tracking in
    let c = write_u64_be b 4 timestamp in
    let d = set c 12 b'P' in
    let e = write_u64_be d 13 order_ref in
    let f = set e 21 side in
    let g = write_u32_be f 22 shares in
    let h = copy_chars g 26 stock 8 in
    let i = write_u32_be h 34 price in write_u64_be i 38 match_number

-- The loop of `build_packet`, which appends to `packet`; `length` is a `uint16_t`.
unfoldable pub append_messages : List ℕ → List (List ℕ) → List ℕ
append_messages packet [] = packet
append_messages packet (msg ∷ messages) =
    let size = (length msg + 2) % 2 ^ 16 in
    append_messages (packet ++ (bit_and (size / 2 ^ 8) 0xff ∷ bit_and size 0xff ∷ msg)) messages

unfoldable pub build_packet : List (List ℕ) → List ℕ
unfolding append_messages
build_packet messages = append_messages [] messages
