-- ===== src/Config/Groups/Drawing.antt =====
-- The servers of a random group.
use mathlib.Core.List.{
  Mem, Nodup, mem-cons, Nodup-cons, Nodup-nil, not-mem-nil, Mem-prop, mem_of_ne_of_mem,
}
use mathlib.Core.Logic.Or
use bmrng.Prelude.{
  ℕ, zero, suc, ◌+◌, ◌^◌, ◌≤◌, ◌<◌, ◌≡◌, refl, sym, ap, ◌∙◌, Option, some, List, [], ◌∷◌, length,
  get_elem?, arith,
}
use bmrng.Prelude.Int.{ℤ}
use bmrng.Prelude.Outcome.{ok}
use bmrng.Prelude.Bytes.{Bytes}
use bmrng.Prelude.Perms.{get_elem?-some}
use bmrng.Config.Shuffler.{Shuffler, new, select_random}
use bmrng.Config.Shuffler.Permutation.{Reliable, select_random-distinct}
use bmrng.Config.Groups.{
  Group, element_at, pick, random_loop, create_random_groups_with_size, seed_size,
}

get_elem?-Mem : (ids : List ℤ) (i : ℕ) (x : ℤ) → get_elem? ids i ≡ some x → Mem x ids
get_elem?-Mem [] i x h = absurd (cc)
get_elem?-Mem (y ∷ ids) zero x h = mem-cons.1 (Or.inl (cc))
get_elem?-Mem (y ∷ ids) (suc i) x h = mem-cons.1 (Or.inr (get_elem?-Mem ids i x h))

-- In a list without duplicates an element has one place.
one_place :
    (ids : List ℤ) (i j : ℕ) (x : ℤ)
    → Nodup ids
    → get_elem? ids i ≡ some x
    → get_elem? ids j ≡ some x
    → i ≡ j
one_place [] i j x n h k = absurd (cc)
one_place (y ∷ ids) zero zero x n h k = refl
one_place (y ∷ ids) zero (suc j) x n h k =
    absurd ((Nodup-cons.0 n).0 (get_elem?-Mem ids j y (k ∙ sym h)))
one_place (y ∷ ids) (suc i) zero x n h k =
    absurd ((Nodup-cons.0 n).0 (get_elem?-Mem ids i y (h ∙ sym k)))
one_place (y ∷ ids) (suc i) (suc j) x n h k = ap suc (one_place ids i j x (Nodup-cons.0 n).1 h k)

pick-cons :
    (ids : List ℤ) (j : ℕ) (js : List ℕ) (x : ℤ) (servers : List ℤ)
    → get_elem? ids j ≡ some x
    → pick ids js ≡ ok servers
    → pick ids (j ∷ js) ≡ ok (x ∷ servers)
unfolding pick element_at
pick-cons ids j js x servers e picked = rw (element_at, e, picked)

-- The servers at different places are different, and are servers of the list.
pick-distinct :
    (ids : List ℤ) (js : List ℕ)
    → Nodup ids
    → Nodup js
    → ((j : ℕ) → Mem j js → j < length ids)
    → (servers : List ℤ) × (pick ids js ≡ ok servers)
      × (length servers ≡ length js)
      × Nodup servers
      × ((x : ℤ) → Mem x servers → Mem x ids)
      × ((k : ℕ) (x : ℤ) → get_elem? ids k ≡ some x → ¬ Mem k js → ¬ Mem x servers)
unfolding pick
pick-distinct ids [] n d inside =
    ([], refl, refl, Nodup-nil, λ x m. absurd (not-mem-nil m), λ k x e out m. not-mem-nil m)
pick-distinct ids (j ∷ js) n d inside =
    let (x, e) = get_elem?-some ids j (inside j (mem-cons.1 (Or.inl refl))) in
    let (out, d') = Nodup-cons.0 d in
    let (servers, picked, size, different, of_ids, avoids) =
      pick-distinct ids js n d' (λ i m. inside i (mem-cons.1 (Or.inr m))) in
    (
      x ∷ servers,
      pick-cons ids j js x servers e picked,
      ap suc size,
      Nodup-cons.1 (avoids j x e out, different),
      λ y m.
          Or.elim (Mem-prop {a = y} {l = ids}) (mem-cons.0 m)
            (λ q. get_elem?-Mem ids j y (e ∙ ap some (sym q))) (of_ids y),
      λ k y e' out' m.
          avoids k y e' (λ t. out' (mem-cons.1 (Or.inr t)))
            (mem_of_ne_of_mem
              (λ q. out' (mem-cons.1 (Or.inl (one_place ids k j x n (e' ∙ ap some q) e)))) m),
    )

-- The groups are numbered from `i` on, and each has `size` different servers of the list.
abbrev pub Groups : ℕ → ℕ → List ℤ → List Group → Type 0
Groups i size ids [] = Unit
Groups i size ids (g ∷ gs) =
    (g.gid ≡ i)
    × (length g.servers ≡ size)
    × Nodup g.servers
    × ((x : ℤ) → Mem x g.servers → Mem x ids)
    × Groups (i + 1) size ids gs

module _ {S : Type 0} (read : S → ℕ → Option (Bytes × S)) (reliable : Reliable read) where
  pub new-length : (src : S) (n : ℕ) → length (new read src n).buf ≡ n
  unfolding new
  new-length src n = let (b, src', e, l) = reliable.full src n in rw (length, new, e) l

  random_step :
      (k i size : ℕ) (ids : List ℤ) (r r' : Shuffler S) (indices : List ℕ) (servers : List ℤ)
      (rest : List Group)
      → select_random read (length ids) size r ≡ ok (indices, r')
      → pick ids indices ≡ ok servers
      → random_loop read k (i + 1) size ids r' ≡ ok rest
      → random_loop read (suc k) i size ids r ≡ ok (record { gid = i; servers = servers } ∷ rest)
  unfolding random_loop
  random_step k i size ids r r' indices servers rest e p q = rw (random_loop, e, p, q)

  random_loop_lem :
      (k i size : ℕ) (ids : List ℤ) (r : Shuffler S)
      → Nodup ids
      → size ≤ length ids
      → length ids < 2 ^ 32
      → 4 ≤ length r.buf
      → (groups : List Group) × (random_loop read k i size ids r ≡ ok groups)
        × (length groups ≡ k)
        × Groups i size ids groups
  unfolding random_loop
  random_loop_lem zero i size ids r n le fits h = ([], refl, refl, tt)
  random_loop_lem (suc k) i size ids r n le fits h =
      let (indices, r', e, l, d, below, kept) =
        select_random-distinct read reliable (length ids) size r le h fits in
      let (servers, picked, l', d', of_ids, avoids) = pick-distinct ids indices n d below in
      let (groups, q, count, all) =
        random_loop_lem k (i + 1) size ids r' n le fits (omega (arith, kept, h)) in
      (
        record { gid = i; servers = servers } ∷ groups,
        random_step k i size ids r r' indices servers groups e picked q,
        ap suc count,
        (refl, l' ∙ l, d', of_ids, all),
      )

  -- Random groups are groups. `CreateRandomGroupsWithSize` returns, whatever bytes the generator
  -- gives, as many groups as were asked for, numbered from 0 on, and each has as many servers as
  -- asked for, all different and of the list: if the source fills its buffers, the servers of the
  -- list are different and fewer than 2^32, and the size is no larger than the list.
  pub create_random_groups_with_size_lem :
      (seeded : S) (n_groups size : ℕ) (ids : List ℤ)
      → Nodup ids
      → size ≤ length ids
      → length ids < 2 ^ 32
      → (groups : List Group) × (create_random_groups_with_size read seeded n_groups size ids
          ≡ ok groups)
        × (length groups ≡ n_groups)
        × Groups 0 size ids groups
  unfolding create_random_groups_with_size
  create_random_groups_with_size_lem seeded n_groups size ids n le fits =
      random_loop_lem n_groups 0 size ids (new read seeded seed_size) n le fits
        (omega (arith, new-length seeded seed_size))
