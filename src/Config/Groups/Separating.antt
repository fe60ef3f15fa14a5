-- ===== src/Config/Groups/Separating.antt =====
-- Separate groups, of a permutation that is long enough.
use mathlib.Core.List.{Mem, Nodup, append_assoc, append-nil}
use mathlib.Core.List.Perm
use native.Mathlib.Nat.{zero-add, zero-mul, suc-mul, add_comm}
use bmrng.Prelude.{
  ℕ, zero, suc, ◌+◌, ◌*◌, ◌^◌, ◌≤◌, ◌<◌, ◌≡◌, refl, sym, ap, subst, ◌∙◌, Option, some, List, [],
  ◌∷◌, ◌++◌, map, length, take, drop, length-take, length-drop, take-add, take-append-drop, arith,
}
use bmrng.Prelude.Int.{ℤ, pos}
use bmrng.Prelude.Outcome.{ok}
use bmrng.Prelude.Bytes.{Bytes}
use bmrng.Config.Shuffler.{Shuffler, new, perm}
use bmrng.Prelude.Perms.{perm-length}
use bmrng.Config.Shuffler.Permutation.{
  Reliable, perm-total, Nodup-count_up, mem-count_up, length-count_up, Nodup-take, mem-take,
}
use bmrng.Config.Groups.{
  Group, Draw, draw_group, put_group, separate_loop, create_separate_groups_with_size, seed_size,
}
use bmrng.Config.Groups.Drawing.{new-length}
use bmrng.Config.Groups.Rounds.{at_place, draw_group_lem}

-- The servers of all groups.
abbrev pub members : List Group → List ℤ
members [] = []
members (g ∷ gs) = g.servers ++ members gs

-- The groups are numbered from `i` on, and each has `size` servers.
abbrev pub Numbered : ℕ → ℕ → List Group → Type 0
Numbered i size [] = Unit
Numbered i size (g ∷ gs) = (g.gid ≡ i) × (length g.servers ≡ size) × Numbered (i + 1) size gs

length-pos : (xs : List ℕ) → length (map pos xs) ≡ length xs
length-pos [] = refl
length-pos (x ∷ xs) = ap suc (length-pos xs)

map-pos-append : (xs ys : List ℕ) → map pos (xs ++ ys) ≡ map pos xs ++ map pos ys
map-pos-append [] ys = refl
map-pos-append (x ∷ xs) ys = ap (◌∷◌ (pos x)) (map-pos-append xs ys)

module _ {S : Type 0} (read : S → ℕ → Option (Bytes × S)) where
  separate-next :
      (fuel k i n size : ℕ) (d d' : Draw S) (rest : List Group)
      → draw_group read fuel n size (record d { servers = [] }) ≡ some (ok d')
      → separate_loop read fuel k (i + 1) n size d' ≡ some (ok rest)
      → separate_loop read fuel (suc k) i n size d
        ≡ some (ok (record { gid = i; servers = map pos d'.servers } ∷ rest))
  unfolding separate_loop put_group
  separate-next fuel k i n size d d' rest e q = rw (separate_loop, e, q)

  fresh :
      (pre servers rest : List ℕ) (r : Shuffler S)
      → record (at_place pre servers rest r) { servers = [] } ≡ at_place (pre ++ servers) [] rest r
  fresh pre servers rest r =
      ap (λ l. record { permutation = l ++ rest; index = length l; servers = []; shuffler = r })
        (sym (append-nil (pre ++ servers)))

  separate_loop_lem :
      (k fuel i n size : ℕ) (d : Draw S) (pre rest : List ℕ) (r : Shuffler S)
      → record d { servers = [] } ≡ at_place pre [] rest r
      → size ≤ fuel
      → k * size ≤ length rest
      → Nodup (pre ++ rest)
      → (groups : List Group) × (separate_loop read fuel k i n size d ≡ some (ok groups))
        × (length groups ≡ k)
        × Numbered i size groups
        × (members groups ≡ map pos (take (k * size) rest))
  unfolding separate_loop
  separate_loop_lem zero fuel i n size d pre rest r e enough h nodup =
      ([], refl, refl, tt, rw (zero-mul size))
  separate_loop_lem (suc k) fuel i n size d pre rest r e enough h nodup =
      let here = take size rest in
      let after = drop size rest in
      let room : size + k * size ≤ length rest = omega (arith, h, suc-mul k size) in
      let (groups, q, count, numbered, all) =
        separate_loop_lem k fuel (i + 1) n size (at_place pre here after r) (pre ++ here) after r
          (fresh pre here after r) enough (omega (arith, room, length-drop size rest))
          (subst Nodup (regroup pre size rest) nodup) in
      (
        record { gid = i; servers = map pos here } ∷ groups,
        separate-next fuel k i n size d (at_place pre here after r) groups
            (ap (draw_group read fuel n size) e
              ∙ draw_group_lem read size fuel n size pre [] rest r enough (zero-add size)
                  (omega (arith, room))
                  (subst Nodup (ap (λ l. l ++ rest) (sym (append-nil pre))) nodup))
            q,
        ap suc count,
        (refl, length-pos here ∙ omega (arith, room, length-take size rest), numbered),
        ap (◌++◌ (map pos here)) all
            ∙ (sym (map-pos-append here (take (k * size) after))
                ∙ ap (map pos) (
                    sym (take-add size (k * size) rest)
                    ∙ ap (λ t. take t rest) (add_comm size (k * size) ∙ sym (suc-mul k size)))),
      )
    where
      regroup :
          (pre : List ℕ) (size : ℕ) (rest : List ℕ)
          → pre ++ rest ≡ (pre ++ take size rest) ++ drop size rest
      regroup pre size rest =
          ap (◌++◌ pre) (sym (take-append-drop size rest))
          ∙ sym (append_assoc pre (take size rest) (drop size rest))

  drawn_from :
      (fuel n_groups size n : ℕ) (seeded : S) (pi : List ℕ) (r : Shuffler S)
      → perm read n (new read seeded seed_size) ≡ ok (pi, r)
      → create_separate_groups_with_size read fuel seeded n_groups size n
        ≡ separate_loop read fuel n_groups 0 n size (at_place [] [] pi r)
  unfolding create_separate_groups_with_size
  drawn_from fuel n_groups size n seeded pi r e = rw (create_separate_groups_with_size, e)

  -- Separate groups do not overlap. If there are servers enough for all groups, fewer than 2^32, and
  -- the source fills its buffers, `CreateSeparateGroupsWithSize` returns, within `size` rounds for a
  -- group, as many groups as were asked for, numbered from 0 on and of the size asked for, and their
  -- servers, taken together, are different numbers below the number of servers: no server is in two
  -- groups, or twice in one.
  pub create_separate_groups_with_size_lem :
      Reliable read
      → (seeded : S) (fuel n_groups size n : ℕ) → size ≤ fuel
      → n_groups * size ≤ n
      → n < 2 ^ 32
      → (groups : List Group) × (drawn : List ℕ) × (create_separate_groups_with_size read fuel
            seeded n_groups size n
          ≡ some (ok groups))
        × (length groups ≡ n_groups)
        × Numbered 0 size groups
        × (members groups ≡ map pos drawn)
        × Nodup drawn
        × ((x : ℕ) → Mem x drawn → x < n)
  create_separate_groups_with_size_lem reliable seeded fuel n_groups size n enough room fits =
      let r = new read seeded seed_size in
      let (pi, r', e, p, l) =
        perm-total read reliable n r (omega (arith, new-length read reliable seeded seed_size))
          fits in
      let size_pi : length pi ≡ n = perm-length p ∙ length-count_up 0 n in
      let nodup = Perm.nodup (Perm.symm p) (Nodup-count_up 0 n) in
      let (groups, q, count, numbered, all) =
        separate_loop_lem n_groups fuel 0 n size (at_place [] [] pi r') [] pi r' refl enough
          (omega (arith, room, size_pi)) nodup in
      (
        groups,
        take (n_groups * size) pi,
        drawn_from fuel n_groups size n seeded pi r' e ∙ q,
        count,
        numbered,
        all,
        Nodup-take (n_groups * size) pi nodup,
        λ x m.
            omega (arith, mem-count_up 0 n ((Perm.mem_iff p).0 (mem-take (n_groups * size) pi m))),
      )
