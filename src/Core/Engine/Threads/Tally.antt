-- ===== src/Core/Engine/Threads/Tally.antt =====
-- What the counters of a running engine count.
use winter_square.Common.{
  ℕ, zero, suc, ◌+◌, ◌-◌, ◌%◌, ◌^◌, ◌<◌, ◌≤◌, ◌≡◌, ◌≢◌, refl, ap, Bool, List, [], ◌∷◌, ◌++◌, Option,
  none, some, arith, ltb, if◌then◌else◌, length, set_entry, ==-yes, ==-no, ℕ_discrete, Bool-cases,
  inl, inr,
}
use winter_square.Core.Receiver.{Packet, UdpReceiver, receive_round, read_packet}
use winter_square.Core.Receiver.Views.{packet_of}
use winter_square.Core.Engine.Threads.{Place, reading, dispatching, posting, arrives}
use winter_square.Core.Engine.Threads.Log.{accepted}
use winter_square.Queue.Spsc.{push, pop}

-- The calls of `push` that were refused.
abbrev pub refused {ℓ} : {A : Type ℓ} → List (A × Bool) → ℕ
refused [] = 0
refused ((x, b) ∷ rest) = (if b then 0 else 1) + refused rest

pub refused-append {ℓ} :
    {A : Type ℓ} (xs ys : List (A × Bool)) → refused (xs ++ ys) ≡ refused xs + refused ys
refused-append [] ys = omega arith
refused-append (x ∷ xs) ys = omega (arith, refused-append xs ys)

-- Those of the first `n` queues.
abbrev pub refusals {ℓ} : {A : Type ℓ} → ℕ → (ℕ → List (A × Bool)) → ℕ
refusals zero offered = 0
refusals (suc n) offered = refused (offered n) + refusals n offered

module _ {ℓ} {A : Type ℓ} (offered : ℕ → List (A × Bool)) (j : ℕ) (v : List (A × Bool)) where
  refusals_other : (n : ℕ) → n ≤ j → refusals n (set_entry j v offered) ≡ refusals n offered
  refusals_other zero h = refl
  refusals_other (suc n) h = rw (==-no (differs n h), refusals_other n (omega arith))
    where
      differs : (n : ℕ) → suc n ≤ j → j ≢ n
      differs n h e = omega arith

  refusals-set_entry :
      (n : ℕ)
      → j < n
      → refusals n (set_entry j v offered) + refused (offered j) ≡ refusals n offered + refused v
  refusals-set_entry zero h = elim h [ ]
  refusals-set_entry (suc n) h = elim (ℕ_discrete j n) [
    | yes e ↦
        rw (==-yes e)
          (omega (arith, refusals_other n (omega (arith, e)), ap (λ k. refused (offered k)) e))
    | no ne ↦ rw (==-no ne) (omega (arith, refusals-set_entry n (omega (arith, ne))))
  ]

-- One more call counts if it is refused.
pub refusals-snoc {ℓ} :
    {A : Type ℓ} (offered : ℕ → List (A × Bool)) (j n : ℕ) (x : A) (b : Bool)
    → j < n
    → refusals n (set_entry j (offered j ++ (x, b) ∷ []) offered)
      ≡ refusals n offered + (if b then 0 else 1)
refusals-snoc offered j n x b h = omega (
  arith,
  refusals-set_entry offered j (offered j ++ (x, b) ∷ []) n h,
  refused-append (offered j) ((x, b) ∷ []),
)

-- The messages of the packet in hand: those whose `dispatch` has not returned, and all of them.
abbrev pub undispatched : Place → ℕ
undispatched reading = 0
undispatched (dispatching parse_start count i) = count - i
undispatched (posting parse_start count i now j) = count - i

abbrev pub in_hand : Place → ℕ
in_hand reading = 0
in_hand (dispatching parse_start count i) = count
in_hand (posting parse_start count i now j) = count

-- A round of the receiver counts what it pushes.
pub receive_round-counts :
    (r : UdpReceiver) (packet : Packet) (answer : Option (List ℕ)) (now : ℕ)
    → let r' = (receive_round r packet answer now).0 in
      (r'.stats.packets_received % 2 ^ 64
        ≡ (r.stats.packets_received + length (accepted (arrives r packet answer now))) % 2 ^ 64)
      × (r'.stats.packets_dropped % 2 ^ 64
          ≡ (r.stats.packets_dropped + refused (arrives r packet answer now)) % 2 ^ 64)
unfolding receive_round arrives
receive_round-counts r packet none now = (omega arith, omega arith)
receive_round-counts r packet (some bytes) now =
    let p : Packet = packet_of packet bytes now in
    elim (Bool-cases (ltb 0 (length bytes))) [
      | inl some_bytes ↦ elim (Bool-cases (push r.packet_queue p).0) [
        | inl e ↦ rw (some_bytes, e) (omega arith, omega arith)
        | inr e ↦ rw (some_bytes, e) (omega arith, omega arith)
      ]
      | inr nothing ↦ rw nothing (omega arith, omega arith)
    ]

pub read_packet-stats : (r : UdpReceiver) (view : _) → (read_packet r view).2.stats ≡ r.stats
unfolding read_packet
read_packet-stats r view = elim (Bool-cases (pop r.packet_queue r.current_packet).0) [
  | inl e ↦ rw e
  | inr e ↦ rw e
]
