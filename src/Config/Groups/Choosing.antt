-- ===== src/Config/Groups/Choosing.antt =====
-- The number of groups that is chosen.
use native.Mathlib.Nat.{le-div_iff_mul-le, div-lt_iff_lt-mul, one-mul}
use mathlib.Core.List.{Mem, Nodup}
use native.Mathlib.Decide.{dec_lt}
use bmrng.Prelude.{
  ℕ, zero, suc, ◌*◌, ◌/◌, ◌≤◌, ◌<◌, ◌≡◌, refl, ◌⊎◌, true, false, leb, ltb, Option, some, List, map,
  length, ◌^◌, Bool-cases, inl, inr, arith,
}
use bmrng.Prelude.Outcome.{ok}
use bmrng.Prelude.Int.{pos}
use bmrng.Prelude.Bytes.{Bytes}
use bmrng.Config.Shuffler.Permutation.{Reliable}
use bmrng.Config.Groups.{Group, few_loop, calc_few_groups, create_separate_groups_with_size}
use bmrng.Config.Groups.Separating.{members, Numbered, create_separate_groups_with_size_lem}

-- No group of the size that `g` groups need is empty, and one group of all servers is large enough.
pub record Sizes (size_of : ℕ → ℕ) (n : ℕ) : Type 0 where
  pub positive : (g : ℕ) → 0 < size_of g
  pub one_fits : size_of 1 ≤ n

few_loop-found :
    (size_of : ℕ → ℕ) (n g : ℕ)
    → 0 < size_of (suc g)
    → leb (suc g) (n / size_of (suc g)) ≡ true
    → few_loop size_of n (suc g) ≡ ok (suc g)
unfolding few_loop
few_loop-found size_of n g h e = ground (arith, h, e)

few_loop-next :
    (size_of : ℕ → ℕ) (n g : ℕ)
    → 0 < size_of (suc g)
    → leb (suc g) (n / size_of (suc g)) ≡ false
    → few_loop size_of n (suc g) ≡ few_loop size_of n g
unfolding few_loop
few_loop-next size_of n g h e = ground (arith, h, e)

-- The loop stops at the largest number of groups, `g` or fewer, that the servers are enough for.
few_loop_lem :
    (size_of : ℕ → ℕ) (n g : ℕ)
    → ((k : ℕ) → 0 < size_of k)
    → (r : ℕ) × (few_loop size_of n g ≡ ok r)
      × (r ≤ g)
      × ((r ≡ 0) ⊎ (r ≤ n / size_of r))
      × ((k : ℕ) → r < k → k ≤ g → n / size_of k < k)
unfolding few_loop
few_loop_lem size_of n zero positive =
    (0, refl, omega arith, inl refl, λ k a b. absurd (omega (arith, a, b)))
few_loop_lem size_of n (suc g) positive = elim (Bool-cases (leb (suc g) (n / size_of (suc g)))) [
  | inl enough ↦ (
    suc g,
    few_loop-found size_of n g (positive (suc g)) enough,
    omega arith,
    inr (ground (arith, enough)),
    λ k a b. absurd (omega (arith, a, b)),
  )
  | inr less ↦
      (let (r, e, small, fits, above) = few_loop_lem size_of n g positive in
        (
          r,
          rw (few_loop-next size_of n g (positive (suc g)) less) e,
          omega (arith, small),
          fits,
          λ k a b. last size_of n g k less (above k a) b,
        ))
]
  where
    last :
        (size_of : ℕ → ℕ) (n g k : ℕ)
        → leb (suc g) (n / size_of (suc g)) ≡ false
        → (k ≤ g → n / size_of k < k)
        → k ≤ suc g
        → n / size_of k < k
    last size_of n g k less below b = elim (dec_lt g k) [
      | yes over ↦ (let e : k ≡ suc g = omega (arith, over, b) in rw e (ground (arith, less)))
      | no under ↦ below (omega (arith, under))
    ]

-- As many groups as there are servers for: `CalcFewGroups` returns a number of groups and their size, the groups have n servers or fewer in all, and for no larger number up to n
-- would they be enough: if no size is 0 and a single group needs n servers or fewer.
pub calc_few_groups_lem :
    (size_of : ℕ → ℕ) (n : ℕ)
    → Sizes size_of n
    → (g : ℕ) × (calc_few_groups size_of n ≡ ok (size_of g, g))
      × (0 < g)
      × (g * size_of g ≤ n)
      × ((k : ℕ) → g < k → k ≤ n → n < k * size_of k)
unfolding calc_few_groups
calc_few_groups_lem size_of n s =
    let (r, e, small, fits, above) = few_loop_lem size_of n n s.positive in
    let at_least_one : (k : ℕ) → r < k → k ≤ n → n < k * size_of k =
      λ k a b. (div-lt_iff_lt-mul (s.positive k)).0 (above k a b) in
    elim (Bool-cases (ltb r 1)) [
      | inl never ↦ (
        1,
        rw (e, never) refl,
        omega arith,
        rw (one-mul (size_of 1)) s.one_fits,
        λ k a b. at_least_one k (omega (arith, a, low_of r never)) b,
      )
      | inr found ↦ (
        r,
        rw (e, found) refl,
        ground (arith, found),
        total r (ground (arith, found)) fits,
        at_least_one,
      )
    ]
  where
    low_of : (r : ℕ) → ltb r 1 ≡ true → r < 1
    low_of r h = ground (arith, h)

    total : (r : ℕ) → 0 < r → (r ≡ 0) ⊎ (r ≤ n / size_of r) → r * size_of r ≤ n
    total r h (inl zero_groups) = absurd (omega (arith, h, zero_groups))
    total r h (inr fits) = (le-div_iff_mul-le (s.positive r)).0 fits

-- Each server is assigned to one group at most. `CalcFewGroups` returns a size and a number of groups,
-- at least one, and `CreateSeparateGroupsWithSize` of them returns that many groups of that size, whose
-- servers are all different and numbers below n; and no larger number of groups up to n, with the size
-- that it needs, would have had servers enough. This holds if no size is 0, a single group needs n
-- servers or fewer, n is below 2^32, and the source fills its buffers.
pub calc_few_groups-create_separate :
    {S : Type 0} (read : S → ℕ → Option (Bytes × S))
    → Reliable read
    → (seeded : S) (size_of : ℕ → ℕ) (n : ℕ) → Sizes size_of n
    → n < 2 ^ 32
    → (g : ℕ) × (groups : List Group) × (drawn : List ℕ) × (calc_few_groups size_of n
        ≡ ok (size_of g, g))
      × (create_separate_groups_with_size read (size_of g) seeded g (size_of g) n
          ≡ some (ok groups))
      × (0 < g)
      × (length groups ≡ g)
      × Numbered 0 (size_of g) groups
      × (members groups ≡ map pos drawn)
      × Nodup drawn
      × ((x : ℕ) → Mem x drawn → x < n)
      × ((k : ℕ) → g < k → k ≤ n → n < k * size_of k)
calc_few_groups-create_separate read reliable seeded size_of n s fits =
    let (g, e, positive, room, largest) = calc_few_groups_lem size_of n s in
    let (groups, drawn, made, count, numbered, all, nodup, below) =
      create_separate_groups_with_size_lem read reliable seeded (size_of g) g (size_of g) n
        (omega arith) room fits in
    (g, groups, drawn, e, made, positive, count, numbered, all, nodup, below, largest)
