-- ===== src/Prelude/Assoc.antt =====
-- Equality tests as instances, and a Go map as an association list with one entry for a key.
use Prim.Native.Nat.{ℕ, ◌+◌, ◌≤◌}
use mathlib.Core.Path.{◌≡◌, refl}
use mathlib.Core.Logic.{◌↔◌}
use mathlib.Core.Bool.{Bool, true, false, ◌&&◌}
use mathlib.Core.List.{List, [], ◌∷◌}
use mathlib.Core.Option.{Option, none, some}
use native.Mathlib.Omega.{arith}
use bmrng.Prelude.Tests.{if◌then◌else◌, ==_iff, ◌==◌ as nat_beq}
use bmrng.Prelude.Lists.{length}

pub record Eq {ℓ} (A : Type ℓ) : Type ℓ where
  pub beq : A → A → Bool
  pub beq_iff : (a b : A) → (beq a b ≡ true) ↔ (a ≡ b)

instance abbrev pub nat_eq : Eq ℕ
nat_eq = record { beq = nat_beq; beq_iff = ==_iff }

-- `bytes.Equal`, and the equality of array keys.
unfoldable pub bytes_beq : List ℕ → List ℕ → Bool
bytes_beq [] [] = true
bytes_beq (a ∷ as') (b ∷ bs) = nat_beq a b && bytes_beq as' bs
bytes_beq _ _ = false

pub bytes_beq_iff : (xs ys : List ℕ) → (bytes_beq xs ys ≡ true) ↔ (xs ≡ ys)
unfolding bytes_beq
bytes_beq_iff [] [] = (λ _. refl, λ _. refl)
bytes_beq_iff [] (y ∷ ys) = ground arith
bytes_beq_iff (x ∷ xs) [] = ground arith
bytes_beq_iff (x ∷ xs) (y ∷ ys) = ground (arith, bytes_beq_iff xs ys)

instance abbrev pub bytes_eq : Eq (List ℕ)
bytes_eq = record { beq = bytes_beq; beq_iff = bytes_beq_iff }

module _ {ℓ κ} {K : Type ℓ} {V : Type κ} ⦃e : Eq K⦄ where
  -- `v, exists := m[k]`.
  unfoldable pub lookup : K → List (K × V) → Option V
  lookup k [] = none
  lookup k ((j, v) ∷ m) = if e.beq j k then some v else lookup k m

  -- `m[k] = v`.
  unfoldable pub insert : K → V → List (K × V) → List (K × V)
  insert k v [] = (k, v) ∷ []
  insert k v ((j, w) ∷ m) = if e.beq j k then (j, v) ∷ m else (j, w) ∷ insert k v m

  -- `delete(m, k)`.
  unfoldable pub delete : K → List (K × V) → List (K × V)
  delete k [] = []
  delete k ((j, w) ∷ m) = if e.beq j k then m else (j, w) ∷ delete k m

  pub lookup-insert :
      (k j : K) (v : V) (m : List (K × V))
      → lookup j (insert k v m) ≡ (if e.beq k j then some v else lookup j m)
  unfolding lookup insert
  lookup-insert k j v [] = refl
  lookup-insert k j v ((i, w) ∷ m) =
      ground (arith, e.beq_iff k j, e.beq_iff i k, e.beq_iff i j, lookup-insert k j v m)

  pub lookup-insert_self : (k : K) (v : V) (m : List (K × V)) → lookup k (insert k v m) ≡ some v
  lookup-insert_self k v m = rw (lookup-insert k k v m, (e.beq_iff k k).1 refl)

  pub length-insert : (k : K) (v : V) (m : List (K × V)) → length (insert k v m) ≤ length m + 1
  unfolding insert
  length-insert k v [] = omega arith
  length-insert k v ((i, w) ∷ m) = ground (arith, length-insert k v m)

  pub insert-insert :
      (k : K) (v w : V) (m : List (K × V)) → insert k v (insert k w m) ≡ insert k v m
  unfolding insert
  insert-insert k v w [] = ground (arith, e.beq_iff k k)
  insert-insert k v w ((i, u) ∷ m) = ground (arith, e.beq_iff i k, insert-insert k v w m)

  -- Writing back what a map has changes nothing.
  pub insert-lookup : (k : K) (v : V) (m : List (K × V)) → lookup k m ≡ some v → insert k v m ≡ m
  unfolding insert lookup
  insert-lookup k v [] h = absurd (ground arith)
  insert-lookup k v ((i, u) ∷ m) h = ground (arith, e.beq_iff i k, insert-lookup k v m)
