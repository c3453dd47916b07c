-- ===== src/Examples/UdpSender/Sends.antt =====
-- What `main` of examples/udp_sender.cpp sends.
use winter_square.Common.{
  ℕ, suc, ◌+◌, ◌%◌, ◌/◌, ◌^◌, ◌<◌, ◌≡◌, refl, sym, ap, ◌∙◌, Bool, true, false, List, [], ◌∷◌, ◌++◌,
  Option, some, arith, ◌==◌, if◌then◌else◌, length, length-append, ==-yes, ==-no, ℕ_discrete,
}
use winter_square.Common.Int.{ℤ, pos, negsuc}
use winter_square.Common.Word.{add_u64}
use winter_square.Examples.UdpSender.{
  Sender, send_round, send_loop, Outcome, exits, sending, has_interval, sender_main,
}
use mathlib.Core.List.{append_assoc, append-nil}

module _ (format : ℕ → ℕ → List ℕ) where
  -- The packets of the rounds before the first failure, numbered from `n`, and whether there is none.
  abbrev pub stream : ℕ → List (ℕ × ℤ) → List (List ℕ)
  stream n [] = []
  stream n ((timestamp, pos sent) ∷ rounds) = format n timestamp ∷ stream (suc n) rounds
  stream n ((timestamp, negsuc error) ∷ rounds) = []

  abbrev pub all_sent : List (ℕ × ℤ) → Bool
  all_sent [] = true
  all_sent ((timestamp, pos sent) ∷ rounds) = all_sent rounds
  all_sent ((timestamp, negsuc error) ∷ rounds) = false

  record Sent (s : Sender) (rounds : List (ℕ × ℤ)) (r : Bool × Sender) : Type 0 where
    goes : r.0 ≡ all_sent rounds
    packets : r.1.packets ≡ s.packets ++ stream s.seq rounds
    progress :
        length r.1.progress + s.seq / 1000
        ≡ length s.progress + (s.seq + length (stream s.seq rounds)) / 1000

  -- A line for each thousand.
  grows :
      (n : ℕ) (lines : List ℕ)
      → n + 1 < 2 ^ 64
      → length (if add_u64 n 1 % 1000 == 0 then lines ++ add_u64 n 1 ∷ [] else lines) + n / 1000
        ≡ length lines + suc n / 1000
  grows n lines h = elim (ℕ_discrete (add_u64 n 1 % 1000) 0) [
    | yes whole ↦ rw (==-yes whole) (omega (arith, whole, length-append lines (add_u64 n 1 ∷ [])))
    | no part ↦ rw (==-no part) (omega (arith, part))
  ]

  send_loop-Sent :
      (s : Sender) (rounds : List (ℕ × ℤ))
      → s.seq + length rounds < 2 ^ 64
      → Sent s rounds (send_loop format s rounds)
  unfolding send_loop send_round
  send_loop-Sent s [] h = record {
    goes = refl;
    packets = sym (append-nil s.packets);
    progress = omega arith;
  }
  send_loop-Sent s ((timestamp, negsuc error) ∷ rounds) h = record {
    goes = refl;
    packets = sym (append-nil s.packets);
    progress = omega arith;
  }
  send_loop-Sent s ((timestamp, pos sent) ∷ rounds) h =
      let (goes, s') = send_round format s (timestamp, pos sent) in
      let next : s'.seq ≡ suc s.seq = omega arith in
      let ih = send_loop-Sent s' rounds (omega (arith, next)) in
      record {
        goes = ih.goes;
        packets =
            ih.packets
            ∙ append_assoc s.packets (format s.seq timestamp ∷ []) (stream s'.seq rounds)
            ∙ ap (λ n. s.packets ++ format s.seq timestamp ∷ stream n rounds) next;
        progress = omega (
          arith,
          ih.progress,
          next,
          grows s.seq s.progress (omega arith),
          ap (λ n. length (stream n rounds)) next,
        );
      }

  -- How the program is left.
  abbrev pub Left : Bool → ℤ → Sender → Option (Outcome format) → Type 0
  Left true sock s r = r ≡ some (sending s)
  Left false sock s r = r ≡ some (exits 0 (sock ∷ []) s)

  -- With a rate other than 0, a socket and fewer than 2 ^ 64 rounds: the program has sent the packets of the rounds
  -- before the first in which `sendto` fails, numbered from 0 in order, with a line for each whole
  -- thousand of them; if one failed, it has closed its socket and exits with code 0, and otherwise it goes on.
  -- Without a socket it exits with code 1 and sends nothing.
  pub sender_main_sends :
      (rate : ℤ) (descriptor code : ℕ) (rounds : List (ℕ × ℤ))
      → has_interval format rate ≡ true
      → length rounds < 2 ^ 64
      → (s : Sender) × Left
          (all_sent rounds)
          (pos descriptor)
          s
          (sender_main format rate (pos descriptor) rounds)
        × (s.packets ≡ stream 0 rounds)
        × (length s.progress ≡ length (stream 0 rounds) / 1000)
        × (sender_main format rate (negsuc code) rounds
            ≡ some (exits 1 [] (record { seq = 0; packets = []; progress = [] })))
  unfolding sender_main
  sender_main_sends rate descriptor code rounds paced few =
      let start : Sender = record { seq = 0; packets = []; progress = [] } in
      let sent = send_loop-Sent start rounds (omega arith) in
      (
        (send_loop format start rounds).1,
        left (all_sent rounds) sent.goes,
        sent.packets,
        omega (arith, sent.progress),
        refl,
      )
    where
      left :
          (b : Bool)
          → (send_loop format (record { seq = 0; packets = []; progress = [] }) rounds).0 ≡ b
          → Left b
              (pos descriptor)
              (send_loop format (record { seq = 0; packets = []; progress = [] }) rounds).1
              (sender_main format rate (pos descriptor) rounds)
      left true goes = rw (goes, paced) refl
      left false goes = rw (goes, paced) refl
