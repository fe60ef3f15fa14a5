-- ===== src/Config/Groups.antt =====
-- config/anytrustGroup.go: the anytrust groups. The size of a group, which the code computes in floating
-- point, is a parameter. A map of groups is a list, in the order of the numbers of the groups.
pub mod Drawing
pub mod Rounds
pub mod Separating
pub mod Choosing
pub mod Examples
use bmrng.Prelude.{
  ℕ, zero, suc, ◌+◌, ◌-◌, ◌/◌, Bool, true, false, ◌||◌, leb, ltb, ◌==◌, if◌then◌else◌, Option, none,
  some, List, [], ◌∷◌, ◌++◌, map, length, get_elem?,
}
use bmrng.Prelude.Int.{ℤ, pos}
use bmrng.Prelude.Outcome.{Outcome, ok, err, panic, ◌>>=◌}
use bmrng.Prelude.Bytes.{Bytes}
use bmrng.Config.Shuffler.{Shuffler, new, modulo, swap, perm, select_random, uint64}

pub record Group : Type 0 where
  pub gid : ℕ
  pub servers : List ℤ

-- `xs[i]`.
unfoldable pub element_at : {A : Type 0} → List A → ℕ → Outcome A
element_at xs i = elim (get_elem? xs i) [ none ↦ panic | some x ↦ ok x ]

-- `servers[i] = serverIds[j]` for the indices of a group.
unfoldable pub pick : List ℤ → List ℕ → Outcome (List ℤ)
unfolding element_at
pick ids [] = ok []
pick ids (j ∷ js) = do server ← element_at ids j; rest ← pick ids js; ok (server ∷ rest)

-- Whether a server is in the group already.
unfoldable pub contains : ℕ → List ℕ → Bool
contains x [] = false
contains x (y ∷ ys) = x == y || contains x ys

-- The buffer of `SeededShuffler`.
abbrev pub seed_size : ℕ
seed_size = 128

-- What `CreateSeparateGroupsWithSize` draws from: the permutation and the place in it, and the servers
-- of the group at hand, which are the keys of `used`.
pub record Draw (S : Type 0) : Type 0 where
  pub permutation : List ℕ
  pub index : ℕ
  pub servers : List ℕ
  pub shuffler : Shuffler S

module _ {S : Type 0} (read : S → ℕ → Option (Bytes × S)) where
  -- The loop of `CreateRandomGroupsWithSize`, for `k` groups from `i` on.
  unfoldable pub random_loop : ℕ → ℕ → ℕ → List ℤ → Shuffler S → Outcome (List Group)
  unfolding pick
  random_loop zero i size ids r = ok []
  random_loop (suc k) i size ids r = do
    (indices, r') ← select_random read (length ids) size r
    servers ← pick ids indices
    rest ← random_loop k (i + 1) size ids r'
    ok (record { gid = i; servers = servers } ∷ rest)

  -- `CreateRandomGroupsWithSize`, of the generator that has absorbed `Seed`.
  unfoldable pub create_random_groups_with_size : S → ℕ → ℕ → List ℤ → Outcome (List Group)
  unfolding random_loop
  create_random_groups_with_size seeded n_groups size ids =
      random_loop n_groups 0 size ids (new read seeded seed_size)

  -- `permutation = append(permutation, s.Perm(n)...)`, at its end.
  unfoldable pub extend : ℕ → Draw S → Outcome (Draw S)
  extend n d =
      if leb (length d.permutation) d.index
      then (perm read n d.shuffler >>= λ (more, r).
          ok (record d { permutation = d.permutation ++ more; shuffler = r }))
      else ok d

  -- A duplicate is swapped with a random place behind it.
  unfoldable pub reshuffle : Draw S → Outcome (Draw S)
  reshuffle d = do
    (x, r) ← uint64 read d.shuffler
    y ← modulo x (length d.permutation - d.index - 1)
    permutation ← swap d.permutation d.index (y + d.index + 1)
    ok (record d { permutation = permutation; shuffler = r })

  -- A round of the inner loop.
  unfoldable pub draw_server : ℕ → Draw S → Outcome (Draw S)
  unfolding extend element_at reshuffle contains
  draw_server n d = do
    d' ← extend n d
    x ← element_at d'.permutation d'.index
    if contains x d'.servers
        then reshuffle d'
        else ok (record d' { servers = d'.servers ++ (x ∷ []); index = d'.index + 1 })

  -- The inner loop, for at most `fuel` rounds; none if it goes on.
  unfoldable pub draw_group : ℕ → ℕ → ℕ → Draw S → Option (Outcome (Draw S))
  unfolding draw_server
  draw_group zero n size d = if leb size (length d.servers) then some (ok d) else none
  draw_group (suc fuel) n size d = elim (leb size (length d.servers)) [
    | true ↦ some (ok d)
    | false ↦ elim (draw_server n d) [
      | ok d' ↦ draw_group fuel n size d'
      | err why ↦ some (err why)
      | panic ↦ some panic
    ]
  ]

  -- A group is put into the map in front of those that follow.
  unfoldable pub put_group :
      ℕ → List ℕ → Option (Outcome (List Group)) → Option (Outcome (List Group))
  put_group i servers none = none
  put_group i servers (some rest) =
      some (rest >>= λ groups. ok (record { gid = i; servers = map pos servers } ∷ groups))

  -- The outer loop, for `k` groups from `i` on.
  unfoldable pub separate_loop : ℕ → ℕ → ℕ → ℕ → ℕ → Draw S → Option (Outcome (List Group))
  unfolding draw_group put_group
  separate_loop fuel zero i n size d = some (ok [])
  separate_loop fuel (suc k) i n size d =
      elim (draw_group fuel n size (record d { servers = [] })) [
        | none ↦ none
        | some (err why) ↦ some (err why)
        | some panic ↦ some panic
        | some (ok d') ↦ put_group i d'.servers (separate_loop fuel k (i + 1) n size d')
      ]

  -- `CreateSeparateGroupsWithSize`, of `n` servers.
  unfoldable pub create_separate_groups_with_size :
      ℕ → S → ℕ → ℕ → ℕ → Option (Outcome (List Group))
  unfolding separate_loop
  create_separate_groups_with_size fuel seeded n_groups size n =
      elim (perm read n (new read seeded seed_size)) [
        | ok (pi, r) ↦
            separate_loop fuel n_groups 0 n size
              (record { permutation = pi; index = 0; servers = []; shuffler = r })
        | err why ↦ some (err why)
        | panic ↦ some panic
      ]

-- The loop of `CalcFewGroups`, from `g` groups down; `size_of` is `CalcGroupSize` of the servers at hand.
unfoldable pub few_loop : (ℕ → ℕ) → ℕ → ℕ → Outcome ℕ
few_loop size_of n zero = ok zero
few_loop size_of n (suc g) =
    let rest = few_loop size_of n g in
    let size = size_of (suc g) in
    if size == 0 then panic else (if leb (suc g) (n / size) then ok (suc g) else rest)

-- `CalcFewGroups`: the size of the groups and how many there are.
unfoldable pub calc_few_groups : (ℕ → ℕ) → ℕ → Outcome (ℕ × ℕ)
unfolding few_loop
calc_few_groups size_of n = do
  g ← few_loop size_of n n
  let g' = if ltb g 1 then 1 else g
  ok (size_of g', g')
