-- ===== src/Tests/Senders.antt =====
-- The test sender on concrete inputs: two packets, and then a failure.
use winter_square.Common.{ℕ, ◌≡◌, refl, false, List, [], ◌∷◌, some, length, arith}
use winter_square.Common.Int.{ℤ, pos, negsuc}
use winter_square.Examples.UdpSender.{Sender, exits, has_interval, sender_main}
use winter_square.Examples.UdpSender.Sends.{Left, sender_main_sends}

abbrev format : ℕ → ℕ → List ℕ
format seq timestamp = seq ∷ timestamp ∷ []

abbrev rounds : List (ℕ × ℤ)
rounds = (70, pos 2) ∷ (80, pos 2) ∷ (90, negsuc 0) ∷ []

sender_main_sends_example :
    (s : Sender) × Left format false (pos 3) s (sender_main format (pos 1000) (pos 3) rounds)
    × (s.packets ≡ (0 ∷ 70 ∷ []) ∷ (1 ∷ 80 ∷ []) ∷ [])
    × (length s.progress ≡ 0)
    × (sender_main format (pos 1000) (negsuc 0) rounds
        ≡ some (exits 1 [] (record { seq = 0; packets = []; progress = [] })))
unfolding has_interval
sender_main_sends_example = sender_main_sends format (pos 1000) 3 0 rounds refl (omega arith)
