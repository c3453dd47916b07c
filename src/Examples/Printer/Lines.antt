-- ===== src/Examples/Printer/Lines.antt =====
-- What `PrintSubscriber` prints.
use winter_square.Common.{
  ℕ, ◌+◌, ◌/◌, ◌^◌, ◌<◌, ◌≡◌, refl, ap, List, [], ◌∷◌, ◌++◌, arith, length, length-append,
}
use winter_square.Common.Word.{add_u64}
use winter_square.Core.Types.{NormalizedMessage}
use winter_square.Core.Dispatcher.Delivery.{deliver}
use winter_square.Examples.Printer.{
  latest_line, total_line, Printer, fresh, on_message, shutdown, print_subscriber,
}

-- As many lines as there are whole ten thousands in the count.
pub record IsPrinting (count : ℕ) (p : Printer) : Type 0 where
  pub counted : p.message_count ≡ count
  pub lines : length p.printed ≡ count / 10000

on_message-IsPrinting :
    (count : ℕ) (p : Printer) (m : NormalizedMessage)
    → count + 1 < 2 ^ 64
    → IsPrinting count p
    → IsPrinting (count + 1) (on_message p m).1
unfolding on_message
on_message-IsPrinting count p m lt h = ground (
  arith,
  length-append p.printed
      (latest_line (add_u64 p.message_count 1) m.sequence m.local_timestamp ∷ []),
)

deliver-IsPrinting :
    (ms : List NormalizedMessage) (count : ℕ) (p : Printer)
    → count + length ms < 2 ^ 64
    → IsPrinting count p
    → IsPrinting (count + length ms) (deliver print_subscriber p ms)
unfolding deliver
deliver-IsPrinting [] count p lt h = omega arith
deliver-IsPrinting (m ∷ ms) count p lt h =
    let rest =
      deliver-IsPrinting ms (count + 1) (on_message p m).1 (omega arith)
        (on_message-IsPrinting count p m (omega arith) h) in
    omega (arith, rest)

-- A fresh subscriber that is given fewer than 2 ^ 64 messages has printed a line for each whole ten
-- thousand of them, and when it is shut down it prints last how many they were.
pub deliver-shutdown :
    (ms : List NormalizedMessage)
    → length ms < 2 ^ 64
    → let p = deliver print_subscriber fresh ms in
      (length p.printed ≡ length ms / 10000)
      × ((shutdown p).printed ≡ p.printed ++ total_line (length ms) ∷ [])
unfolding shutdown
deliver-shutdown ms lt =
    let h =
      deliver-IsPrinting ms 0 fresh (omega arith)
        (record { counted = refl; lines = omega arith }) in
    let p = deliver print_subscriber fresh ms in
    let all : p.message_count ≡ length ms = omega (arith, h) in
    (omega (arith, h), ap (λ n. p.printed ++ total_line n ∷ []) all)
