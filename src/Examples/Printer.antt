-- ===== src/Examples/Printer.antt =====
-- `PrintSubscriber` of examples/basic_example.cpp. What it prints is kept, newest last.
pub mod Lines
use winter_square.Common.{ℕ, ◌%◌, Bool, true, List, [], ◌∷◌, ◌++◌, ◌==◌, if◌then◌else◌}
use winter_square.Common.Word.{add_u64}
use winter_square.Core.Types.{NormalizedMessage}
use winter_square.Core.Subscriber.{Subscriber}

pub data Line : Type 0 where
  latest_line : (messages sequence local_timestamp : ℕ) → Line
  total_line : ℕ → Line

pub record Printer : Type 0 where
  pub message_count : ℕ
  pub printed : List Line

abbrev pub fresh : Printer
fresh = record { message_count = 0; printed = [] }

unfoldable pub on_message : Printer → NormalizedMessage → Bool × Printer
on_message p msg =
    let count = add_u64 p.message_count 1 in
    (
      true,
      record {
        message_count = count;
        printed =
            if count % 10000 == 0
            then p.printed ++ latest_line count msg.sequence msg.local_timestamp ∷ []
            else p.printed;
      },
    )

unfoldable pub shutdown : Printer → Printer
shutdown p = record p { printed = p.printed ++ total_line p.message_count ∷ [] }

abbrev pub print_subscriber : Subscriber Printer
print_subscriber = record { on_message = on_message; initialize = λ p. p; shutdown = shutdown }
