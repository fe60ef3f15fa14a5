-- ===== src/Config/Shuffler/Permutation.antt =====
-- What `Perm`, `SelectRandom` and `Intn` return, for a source that fills every buffer.
use mathlib.Core.List.{Perm, Mem, Nodup, mem-cons, Nodup-cons, Nodup-nil, not-mem-nil}
use mathlib.Core.List.Perm
use mathlib.Core.List.Nodup
use mathlib.Core.List.{mem-append_left}
use mathlib.Core.Logic.Or
use native.Mathlib.Bridge.{le_prop}
use bmrng.Prelude.{
  ℕ, zero, suc, ◌+◌, ◌-◌, ◌%◌, ◌^◌, ◌≤◌, ◌<◌, ◌≡◌, refl, ap, leb, inl, inr, Option, some, List,
  length, get_elem?, set, take, drop, length-set, length-take, take-append-drop, Bool-cases,
  Option-cases, le→leb, arith, ◌∙◌,
}
use bmrng.Prelude.Outcome.{ok}
use bmrng.Prelude.Bytes.{Bytes, slice}
use bmrng.Prelude.Perms.{get_elem?-some, set-set-perm, perm-length}
use bmrng.Config.Shuffler.{
  be_value, modulo, count_up, swap, Shuffler, refill, read_bytes, uint32, perm_loop, perm,
  select_random,
}

pub length-count_up : (i n : ℕ) → length (count_up i n) ≡ n
unfolding count_up
length-count_up i zero = refl
length-count_up i (suc n) = ap suc (length-count_up (i + 1) n)

pub mem-count_up : (i n : ℕ) {x : ℕ} → Mem x (count_up i n) → (i ≤ x) × (x < i + n)
unfolding count_up
mem-count_up i zero m = absurd (not-mem-nil m)
mem-count_up i (suc n) {x} m =
    Or.elim (hlevel le_prop) (mem-cons.0 m) (λ e. omega arith)
      λ t. omega (arith, mem-count_up (i + 1) n t)

pub Nodup-count_up : (i n : ℕ) → Nodup (count_up i n)
unfolding count_up
Nodup-count_up i zero = Nodup-nil
Nodup-count_up i (suc n) =
    Nodup-cons.1 ((λ m. omega (arith, mem-count_up (i + 1) n m)), Nodup-count_up (i + 1) n)

modulo-lt : (x m : ℕ) → 0 < m → (j : ℕ) × (modulo x m ≡ ok j) × (j < m)
unfolding modulo
modulo-lt x m h = (x % m, ground arith, omega arith)

swap-perm :
    (pi : List ℕ) (i j : ℕ)
    → i < length pi
    → j < length pi
    → (pi' : List ℕ) × (swap pi i j ≡ ok pi') × Perm pi' pi
unfolding swap
swap-perm pi i j hi hj =
    let (a, ea) = get_elem?-some pi i hi in
    let (b, eb) = get_elem?-some pi j hj in
    (set (set pi i b) j a, ground arith, set-set-perm pi i j a b ea eb)

swap-length : (pi : List ℕ) (i j : ℕ) (pi' : List ℕ) → swap pi i j ≡ ok pi' → length pi' ≡ length pi
unfolding swap
swap-length pi i j pi' h = elim (Option-cases (get_elem? pi i)) [
  | inl e ↦ absurd (ground arith)
  | inr (a, ea) ↦ elim (Option-cases (get_elem? pi j)) [
    | inl e ↦ absurd (ground arith)
    | inr (b, eb) ↦ ground (arith, length-set pi i b, length-set (set pi i b) j a)
  ]
]

pub Nodup-take : (n : ℕ) (xs : List ℕ) → Nodup xs → Nodup (take n xs)
Nodup-take n xs h = Nodup.of_append_left (drop n xs) (rw (take-append-drop n xs) h)

pub mem-take : (n : ℕ) (xs : List ℕ) {x : ℕ} → Mem x (take n xs) → Mem x xs
mem-take n xs m = rw (take-append-drop n xs) at (mem-append_left (drop n xs) m)

-- The source fills every buffer that it is given.
pub record Reliable {S : Type 0} (read : S → ℕ → Option (Bytes × S)) : Type 0 where
  pub full :
      (src : S) (n : ℕ) → (b : Bytes) × (src' : S) × (read src n ≡ some (b, src')) × (length b ≡ n)

module _ {S : Type 0} (read : S → ℕ → Option (Bytes × S)) (reliable : Reliable read) where
  read_bytes-total :
      (r : Shuffler S) (n : ℕ)
      → n ≤ length r.buf
      → (b : Bytes) × (r' : Shuffler S) × (read_bytes read r n ≡ ok (b, r'))
        × (length r'.buf ≡ length r.buf)
  unfolding read_bytes refill slice
  read_bytes-total r n h =
      let (b, src', e, l) = reliable.full r.src (length r.buf) in
      elim (Bool-cases (leb (length r.buf) (r.pos + n))) [
        | inl again ↦ (take n b, record { src = src'; buf = b; pos = n }, ground arith, l)
        | inr more ↦ (
          take (r.pos + n - r.pos) (drop r.pos r.buf),
          record r { pos = r.pos + n },
          ground arith,
          refl,
        )
      ]

  uint32-total :
      (r : Shuffler S)
      → 4 ≤ length r.buf
      → (x : ℕ) × (r' : Shuffler S) × (uint32 read r ≡ ok (x, r')) × (length r'.buf ≡ length r.buf)
  unfolding uint32
  uint32-total r h = let (b, r', e, l) = read_bytes-total r 4 h in (be_value 0 b, r', rw e refl, l)

  perm_loop-perm :
      (k n i : ℕ) (pi : List ℕ) (r : Shuffler S)
      → i + k < n
      → n < 2 ^ 32
      → length pi ≡ n
      → 4 ≤ length r.buf
      → (pi' : List ℕ) × (r' : Shuffler S) × (perm_loop read k n i pi r ≡ ok (pi', r'))
        × Perm pi' pi
        × (length r'.buf ≡ length r.buf)
  unfolding perm_loop
  perm_loop-perm zero n i pi r lt fits l h = (pi, r, refl, Perm.refl pi, refl)
  perm_loop-perm (suc k) n i pi r lt fits l h =
      let (x, r', ex, lx) = uint32-total r h in
      let (j, ej, jlt) = modulo-lt x ((n - i) % 2 ^ 32) (omega arith) in
      let (pi', es, ps) = swap-perm pi i (j + i) (omega arith) (omega arith) in
      let (pi'', r'', er, pr, lr) =
        perm_loop-perm k n (i + 1) pi' r' (omega arith) fits (swap-length pi i (j + i) pi' es ∙ l)
          (omega arith) in
      (pi'', r'', rw (ex, ej, es) er, Perm.trans {l₁ = pi''} {l₂ = pi'} {l₃ = pi} pr ps, lr ∙ lx)

  -- `Perm` with the length of the buffer that it leaves.
  pub perm-total :
      (n : ℕ) (r : Shuffler S)
      → 4 ≤ length r.buf
      → n < 2 ^ 32
      → (pi : List ℕ) × (r' : Shuffler S) × (perm read n r ≡ ok (pi, r'))
        × Perm pi (count_up 0 n)
        × (length r'.buf ≡ length r.buf)
  unfolding perm perm_loop
  perm-total zero r h fits = (count_up 0 0, r, refl, Perm.refl _, refl)
  perm-total (suc n) r h fits =
      perm_loop-perm (suc n - 1) (suc n) 0 (count_up 0 (suc n)) r (omega arith) fits
        (length-count_up 0 (suc n)) h

  -- `Perm` returns, whatever bytes the source gives, and returns a permutation of 0, ..., n-1, if
  -- the source fills its buffers, the buffer holds a 32-bit number, and n is below 2^32.
  pub perm-perm :
      (n : ℕ) (r : Shuffler S)
      → 4 ≤ length r.buf
      → n < 2 ^ 32
      → (pi : List ℕ) × (r' : Shuffler S) × (perm read n r ≡ ok (pi, r')) × Perm pi (count_up 0 n)
  perm-perm n r h fits = let (pi, r', e, p, l) = perm-total n r h fits in (pi, r', e, p)

  -- `SelectRandom(n, t)` with t at most n returns, under the same conditions, t different numbers
  -- below n.
  pub select_random-distinct :
      (n t : ℕ) (r : Shuffler S)
      → t ≤ n
      → 4 ≤ length r.buf
      → n < 2 ^ 32
      → (xs : List ℕ) × (r' : Shuffler S) × (select_random read n t r ≡ ok (xs, r'))
        × (length xs ≡ t)
        × Nodup xs
        × ((x : ℕ) → Mem x xs → x < n)
        × (length r'.buf ≡ length r.buf)
  unfolding select_random
  select_random-distinct n t r le h fits =
      let (pi, r', e, p, lr) = perm-total n r h fits in
      let l : length pi ≡ n = perm-length p ∙ length-count_up 0 n in
      (
        take t pi,
        r',
        rw (e, le→leb t (length pi) (omega arith)) refl,
        omega (arith, length-take t pi),
        Nodup-take t pi (Perm.nodup (Perm.symm p) (Nodup-count_up 0 n)),
        λ x m. omega (arith, mem-count_up 0 n ((Perm.mem_iff p).0 (mem-take t pi m))),
        lr,
      )
