-- ===== src/Config/Shuffler/Examples.antt =====
-- A counting source, and small runs.
use mathlib.Core.List.{Perm}
use bmrng.Prelude.{
  ℕ, ◌+◌, ◌≡◌, refl, Option, some, List, [], ◌∷◌, length, replicate, map, flatten, take,
  length-replicate, arith,
}
use bmrng.Prelude.Outcome.{ok}
use bmrng.Prelude.Bytes.{Bytes, slice}
use bmrng.Config.Shuffler.{
  be_value, modulo, count_up, swap, Shuffler, new_prg, read_bytes, refill, uint32, perm_loop, perm,
}
use bmrng.Config.Shuffler.Permutation.{Reliable, perm-perm}
use bmrng.Config.Shuffler.Seed.{total, draws, new_prg-serves_seed}

-- A source that repeats its state.
abbrev pub constant : ℕ → ℕ → Option (Bytes × ℕ)
constant src n = some (replicate n src, src + 1)

pub constant-Reliable : Reliable constant
constant-Reliable = record {
  full = λ src n. (replicate n src, src + 1, refl, length-replicate n src);
}

abbrev six : Shuffler ℕ
six = record { src = 2; buf = 0 ∷ 0 ∷ 0 ∷ 7 ∷ 0 ∷ 0 ∷ []; pos = 0 }

perm_run :
    perm constant 3 six ≡ ok (1 ∷ 0 ∷ 2 ∷ [], record { src = 3; buf = replicate 6 2; pos = 4 })
unfolding perm perm_loop uint32 read_bytes refill slice be_value modulo swap count_up
perm_run = refl

perm-perm_example :
    (pi : List ℕ) × (r' : Shuffler ℕ) × (perm constant 3 six ≡ ok (pi, r')) × Perm pi (count_up 0 3)
perm-perm_example = perm-perm constant constant-Reliable 3 six (omega arith) (omega arith)

new_prg-serves_seed_example :
    (bs : List Bytes) × (draws constant (new_prg (λ b. length b) (9 ∷ 8 ∷ 7 ∷ 6 ∷ [])) (2 ∷ 1 ∷ [])
      ≡ ok (bs, record { src = 4; buf = 9 ∷ 8 ∷ 7 ∷ 6 ∷ []; pos = total (2 ∷ 1 ∷ []) }))
    × (map length bs ≡ 2 ∷ 1 ∷ [])
    × (flatten bs ≡ take (total (2 ∷ 1 ∷ [])) (9 ∷ 8 ∷ 7 ∷ 6 ∷ []))
new_prg-serves_seed_example =
    new_prg-serves_seed constant (λ b. length b) (9 ∷ 8 ∷ 7 ∷ 6 ∷ []) (2 ∷ 1 ∷ []) (omega arith)
