-- ===== src/Examples/UdpSender.antt =====
-- `main` of examples/udp_sender.cpp. The arguments, the titles, the options and the address of the socket,
-- and the pauses are left out.
pub mod Sends
use winter_square.Common.{
  ℕ, zero, suc, ◌%◌, Bool, true, false, List, [], ◌∷◌, ◌++◌, Option, none, some, ◌==◌,
  if◌then◌else◌,
}
use winter_square.Common.Int.{ℤ, pos}
use winter_square.Common.Word.{add_u64}
use winter_square.Core.Receiver.{is_negative}

-- The local `seq`, the packets that `sendto` took, and the numbers of the lines of progress.
pub record Sender : Type 0 where
  pub seq : ℕ  -- uint64_t
  pub packets : List (List ℕ)
  pub progress : List ℕ

-- `snprintf` of the sequence number and the timestamp is a parameter: its bytes.
module _ (format : ℕ → ℕ → List ℕ) where
  -- The body of the loop, with the timestamp and the answer of `sendto`; `false` is the `break`.
  unfoldable pub send_round : Sender → ℕ × ℤ → Bool × Sender
  send_round s (timestamp, sent) =
      let buffer = format s.seq timestamp in
      let seq = add_u64 s.seq 1 in
      if is_negative sent then (false, record s { seq = seq }) else (
        true,
        record {
          seq = seq;
          packets = s.packets ++ buffer ∷ [];
          progress = if seq % 1000 == 0 then s.progress ++ seq ∷ [] else s.progress;
        },
      )

  -- The loop, on so many rounds; `true` if it still runs after them.
  unfoldable pub send_loop : Sender → List (ℕ × ℤ) → Bool × Sender
  send_loop s [] = (true, s)
  send_loop s (round ∷ rounds) =
      let (goes, s') = send_round s round in
      elim goes [ true ↦ send_loop s' rounds | false ↦ (false, s') ]

  -- How the program is left after these rounds: with an exit code and the descriptors closed, or not yet.
  pub data Outcome : Type 0 where
    exits : (code : ℕ) → List ℤ → Sender → Outcome
    sending : Sender → Outcome

  -- `1000000 / rate` is `none` for a rate of 0.
  unfoldable pub has_interval : ℤ → Bool
  has_interval (pos zero) = false
  has_interval rate = true

  unfoldable pub sender_main : ℤ → ℤ → List (ℕ × ℤ) → Option Outcome
  unfolding send_loop has_interval
  sender_main rate sock rounds =
      let start : Sender = record { seq = 0; packets = []; progress = [] } in
      let (goes, s) = send_loop start rounds in
      if is_negative sock
      then some (exits 1 [] start)
      else (if has_interval rate
          then some (if goes then sending s else exits 0 (sock ∷ []) s)
          else none)
