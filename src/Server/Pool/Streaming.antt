-- ===== src/Server/Pool/Streaming.antt =====
-- What is queued of a stream, and what its sender is counted for.
use bmrng.Prelude.{
  ℕ, zero, suc, ◌≤◌, ◌≡◌, refl, ◌==◌, if◌then◌else◌, List, [], ◌∷◌, length, take, Bool-cases, inl,
  inr, arith,
}
use bmrng.Prelude.Assoc.{bytes_beq}
use bmrng.Prelude.Outcome.{ok}
use bmrng.Prelude.Bytes.{Bytes, make}
use bmrng.Crypto.Keys.{key_size}
use bmrng.Server.Pool.{all_zero, jobs_of}

-- The messages whose first `n` bytes are not all zero.
unfoldable pub not_dummies : ℕ → List Bytes → List Bytes
not_dummies n [] = []
not_dummies n (m ∷ ms) =
    if bytes_beq (take n m) (make n) then not_dummies n ms else m ∷ not_dummies n ms

-- All messages have `n` bytes at least.
abbrev pub IsLong : ℕ → List Bytes → Type 0
IsLong n [] = Unit
IsLong n (m ∷ ms) = (n ≤ length m) × IsLong n ms

all_zero_lem :
    (n : ℕ) (m : Bytes) → n ≤ length m → all_zero n m ≡ ok (bytes_beq (take n m) (make n))
unfolding all_zero bytes_beq
all_zero_lem zero m h = refl
all_zero_lem (suc n) [] h = absurd (omega (arith, h))
all_zero_lem (suc n) (b ∷ m) h = elim (Bool-cases (b == 0)) [
  | inl zeroes ↦ rw (all_zero, zeroes, all_zero_lem n m (omega (arith, h)))
  | inr other ↦ rw (all_zero, other)
]

-- The queue gets the messages of a stream without its dummies, in order: if every message has a whole
-- key, those whose key is not all zeros.
pub jobs_of-not_dummies :
    (ms : List Bytes) → IsLong key_size ms → jobs_of ms ≡ ok (not_dummies key_size ms)
unfolding jobs_of not_dummies
jobs_of-not_dummies [] h = refl
jobs_of-not_dummies (m ∷ ms) (long, h) =
    elim (Bool-cases (bytes_beq (take key_size m) (make key_size))) [
      | inl dummy ↦ rw (all_zero_lem key_size m long, dummy, jobs_of-not_dummies ms h)
      | inr real ↦ rw (all_zero_lem key_size m long, real, jobs_of-not_dummies ms h)
    ]
