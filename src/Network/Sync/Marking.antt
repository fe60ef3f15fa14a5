-- ===== src/Network/Sync/Marking.antt =====
-- `SyncOnce` behind its wait: which ids are marked, refused, or end in a panic.
use bmrng.Prelude.{
  ℕ, zero, suc, ◌≤◌, ◌<◌, ◌≡◌, refl, ◌↔◌, ◌≢◌, true, false, none, some, List, [], ◌∷◌, length,
  get_elem?, set, length-set, get_elem?-set_self, get_elem?-set_ne, arith,
}
use bmrng.Prelude.Int.{ℤ, pos, negsuc}
use bmrng.Prelude.Outcome.{ok, err, panic, synchronization}
use bmrng.Network.Sync.{Synchronizer, mark, mark_index}

get_elem?-eq-none {ℓ} :
    {A : Type ℓ} (xs : List A) (i : ℕ) → (get_elem? xs i ≡ none) ↔ (length xs ≤ i)
get_elem?-eq-none [] i = (λ _. omega arith, λ _. refl)
get_elem?-eq-none (x ∷ xs) zero = (λ h. cc, λ h. elim h [ ])
get_elem?-eq-none (x ∷ xs) (suc i) = (
  λ h. omega (arith, (get_elem?-eq-none xs i).0 h),
  λ h. (get_elem?-eq-none xs i).1 (omega arith),
)

pub get_elem?-lt {ℓ} :
    {A : Type ℓ} (xs : List A) (i : ℕ) {x : A} → get_elem? xs i ≡ some x → i < length xs
get_elem?-lt [] i h = absurd (cc)
get_elem?-lt (x ∷ xs) zero h = omega arith
get_elem?-lt (x ∷ xs) (suc i) h = omega (arith, get_elem?-lt xs i h)

mark_pos :
    (s : Synchronizer) (i : ℕ) (t : Synchronizer)
    → mark s (pos i) ≡ ok t
    → (get_elem? s.started i ≡ some false) × (t ≡ record s { started = set s.started i true })
unfolding mark mark_index
mark_pos s i t h = (ground arith, ground arith)

mark_again :
    (t : Synchronizer) (i : ℕ)
    → i < length t.started
    → get_elem? t.started i ≡ some true
    → mark t (pos i) ≡ err synchronization
unfolding mark mark_index
mark_again t i lt e = ground arith

-- `SyncOnce` panics at exactly one id: the one that equals the number of senders, which its range
-- test lets through and which is no index of the marks.
pub mark-panic : (s : Synchronizer) (id : ℤ) → (mark s id ≡ panic) ↔ (id ≡ pos (length s.started))
unfolding mark mark_index
mark-panic s (negsuc i) = (λ h. cc, λ h. cc)
mark-panic s (pos i) = (
  λ h. ground (arith, (get_elem?-eq-none s.started i).0),
  λ h. ground (arith, (get_elem?-eq-none s.started i).1),
)

-- A caller gets through exactly if its id is the index of a mark that is not set. Then that mark is
-- set, no other changes, and the same id is refused as a repeated message from then on.
pub mark_once :
    (s : Synchronizer) (id : ℤ) (t : Synchronizer)
    → mark s id ≡ ok t
    → (i : ℕ) × (id ≡ pos i)
      × (get_elem? s.started i ≡ some false)
      × (get_elem? t.started i ≡ some true)
      × ((j : ℕ) → i ≢ j → get_elem? t.started j ≡ get_elem? s.started j)
      × (mark t id ≡ err synchronization)
mark_once s (negsuc i) t h = absurd (unfold mark in cc)
mark_once s (pos i) t h =
    let (unmarked, e) = mark_pos s i t h in
    let lt = get_elem?-lt s.started i unmarked in
    let now = get_elem?-set_self s.started i true lt in
    (
      i,
      refl,
      unmarked,
      ground (arith, e, now),
      λ j ne. ground (arith, e, get_elem?-set_ne s.started {i = i} {j = j} true ne),
      mark_again t i (ground (arith, e, length-set s.started i true)) (ground (arith, e, now)),
    )
