-- ===== src/Config/Shuffler.antt =====
-- config/randomness.go: random numbers drawn through a buffer, and the Knuth shuffle. The source is
-- a parameter: `read src n` is what `src.Read` puts into a buffer of `n` bytes, `none` an error.
pub mod Permutation
pub mod Seed
pub mod Examples
use bmrng.Prelude.{
  ℕ, zero, suc, ◌+◌, ◌-◌, ◌*◌, ◌%◌, ◌^◌, ◌||◌, leb, ◌==◌, if◌then◌else◌, Option, none, some, List,
  [], ◌∷◌, length, get_elem?, set, take,
}
use bmrng.Prelude.Outcome.{Outcome, ok, panic, ◌>>=◌}
use bmrng.Prelude.Bytes.{Bytes, make, slice}

-- `binary.BigEndian.Uint32` and `Uint64`: the highest byte first.
unfoldable pub be_value : ℕ → Bytes → ℕ
be_value acc [] = acc
be_value acc (b ∷ bs) = be_value (acc * 256 + b) bs

-- `x % m`, which panics at 0.
unfoldable pub modulo : ℕ → ℕ → Outcome ℕ
modulo x m = if m == 0 then panic else ok (x % m)

-- `for i := 0; i < n; i++ { pi[i] = i }`, from `i` on.
unfoldable pub count_up : ℕ → ℕ → List ℕ
count_up i zero = []
count_up i (suc n) = i ∷ count_up (i + 1) n

-- `pi[i], pi[j] = pi[j], pi[i]`.
unfoldable pub swap : List ℕ → ℕ → ℕ → Outcome (List ℕ)
swap pi i j = elim (get_elem? pi i) [
  | none ↦ panic
  | some a ↦ elim (get_elem? pi j) [ none ↦ panic | some b ↦ ok (set (set pi i b) j a) ]
]

pub record Shuffler (S : Type 0) : Type 0 where
  pub src : S
  pub buf : Bytes
  pub pos : ℕ

-- `NewPRGShuffler`: the generator absorbs the seed, and the seed is the first buffer. `absorb` is
-- the generator's state after `h.Write(seed)`.
unfoldable pub new_prg : {S : Type 0} → (Bytes → S) → Bytes → Shuffler S
new_prg absorb seed = record { src = absorb seed; buf = seed; pos = 0 }

module _ {S : Type 0} (read : S → ℕ → Option (Bytes × S)) where
  -- `NewShuffler`; an error of the first read is not looked at.
  unfoldable pub new : S → ℕ → Shuffler S
  new src size = elim (read src size) [
    | none ↦ record { src = src; buf = make size; pos = 0 }
    | some (b, src') ↦ record { src = src'; buf = b; pos = 0 }
  ]

  -- The refill: `log.Fatalf` on an error or a short read.
  unfoldable pub refill : Shuffler S → Outcome (Shuffler S)
  refill r = elim (read r.src (length r.buf)) [
    | none ↦ panic
    | some (b, src) ↦
        if length b == length r.buf then ok (record { src = src; buf = b; pos = 0 }) else panic
  ]

  unfoldable pub read_bytes : Shuffler S → ℕ → Outcome (Bytes × Shuffler S)
  unfolding refill
  read_bytes r n = do
    t ← if leb (length r.buf) (r.pos + n) then refill r else ok r
    output ← slice t.buf t.pos (t.pos + n)
    ok (output, record t { pos = t.pos + n })

  unfoldable pub uint64 : Shuffler S → Outcome (ℕ × Shuffler S)
  uint64 r = do (b, r') ← read_bytes r 8; ok (be_value 0 b, r')

  unfoldable pub uint32 : Shuffler S → Outcome (ℕ × Shuffler S)
  uint32 r = do (b, r') ← read_bytes r 4; ok (be_value 0 b, r')

  -- The loop of `Perm` with `k` rounds left, at index `i`; `uint32(n-i)` wraps.
  unfoldable pub perm_loop : ℕ → ℕ → ℕ → List ℕ → Shuffler S → Outcome (List ℕ × Shuffler S)
  perm_loop zero n i pi r = ok (pi, r)
  perm_loop (suc k) n i pi r = do
    (x, r') ← uint32 r
    j ← modulo x ((n - i) % 2 ^ 32)
    pi' ← swap pi i (j + i)
    perm_loop k n (i + 1) pi' r'

  -- `Perm`: the Knuth shuffle of 0, ..., n-1, in `n - 1` rounds.
  unfoldable pub perm : ℕ → Shuffler S → Outcome (List ℕ × Shuffler S)
  perm n r = perm_loop (n - 1) n 0 (count_up 0 n) r

  -- `SelectRandom`: `r.Perm(n)[:t]`.
  unfoldable pub select_random : ℕ → ℕ → Shuffler S → Outcome (List ℕ × Shuffler S)
  select_random n t r = do
    (pi, r') ← perm n r
    if leb t (length pi) then ok (take t pi, r') else panic

  -- `Intn`.
  unfoldable pub intn : ℕ → Shuffler S → Outcome (ℕ × Shuffler S)
  intn max r = do (x, r') ← uint64 r; j ← modulo x max; ok (j, r')
