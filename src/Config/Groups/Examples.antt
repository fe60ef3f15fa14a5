-- ===== src/Config/Groups/Examples.antt =====
-- Two groups of four servers, and how many groups ten servers make.
use mathlib.Core.List.{Mem, Nodup, not-mem-nil, Nodup-cons, Nodup-nil}
use bmrng.Prelude.{ℕ, ◌+◌, ◌*◌, ◌≤◌, ◌<◌, ◌≡◌, some, List, [], ◌∷◌, map, length, arith}
use bmrng.Prelude.Int.{ℤ, pos}
use bmrng.Prelude.Outcome.{ok}
use bmrng.Config.Shuffler.Examples.{constant, constant-Reliable}
use bmrng.Config.Groups.{
  Group, create_random_groups_with_size, create_separate_groups_with_size, calc_few_groups,
}
use bmrng.Config.Groups.Drawing.{Groups, create_random_groups_with_size_lem}
use bmrng.Config.Groups.Separating.{Numbered, members, create_separate_groups_with_size_lem}
use bmrng.Config.Groups.Choosing.{Sizes, calc_few_groups-create_separate}

abbrev one_id : List ℤ
one_id = pos 7 ∷ []

create_random_groups_with_size_lem_example :
    (groups : List Group) × (create_random_groups_with_size constant 3 2 1 one_id ≡ ok groups)
    × (length groups ≡ 2)
    × Groups 0 1 one_id groups
create_random_groups_with_size_lem_example =
    create_random_groups_with_size_lem constant constant-Reliable 3 2 1 one_id
      (Nodup-cons.1 (not-mem-nil, Nodup-nil)) (omega arith) (omega arith)

create_separate_groups_with_size_lem_example :
    (groups : List Group) × (drawn : List ℕ) × (create_separate_groups_with_size constant 2 3 2 2 5
      ≡ some (ok groups))
    × (length groups ≡ 2)
    × Numbered 0 2 groups
    × (members groups ≡ map pos drawn)
    × Nodup drawn
    × ((x : ℕ) → Mem x drawn → x < 5)
create_separate_groups_with_size_lem_example =
    create_separate_groups_with_size_lem constant constant-Reliable 3 2 2 2 5 (omega arith)
      (omega arith) (omega arith)

-- A group needs a server more than there are groups.
abbrev one_more : ℕ → ℕ
one_more g = g + 1

one_more-Sizes : Sizes one_more 10
one_more-Sizes = record { positive = λ g. omega arith; one_fits = omega arith }

calc_few_groups-create_separate_example :
    (g : ℕ) × (groups : List Group) × (drawn : List ℕ) × (calc_few_groups one_more 10
      ≡ ok (one_more g, g))
    × (create_separate_groups_with_size constant (one_more g) 3 g (one_more g) 10
        ≡ some (ok groups))
    × (0 < g)
    × (length groups ≡ g)
    × Numbered 0 (one_more g) groups
    × (members groups ≡ map pos drawn)
    × Nodup drawn
    × ((x : ℕ) → Mem x drawn → x < 10)
    × ((k : ℕ) → g < k → k ≤ 10 → 10 < k * one_more k)
calc_few_groups-create_separate_example =
    calc_few_groups-create_separate constant constant-Reliable 3 one_more 10 one_more-Sizes
      (omega arith)
