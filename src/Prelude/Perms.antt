-- ===== src/Prelude/Perms.antt =====
-- Swaps in a list are permutations, and distinctness carries over.
use Prim.Native.Nat.{ℕ, zero, suc, ◌<◌}
use mathlib.Core.Path.{◌≡◌, refl, ap, ◌∙◌}
use mathlib.Core.Logic.{∥∥₁_elim}
use mathlib.Core.List.{List, [], ◌∷◌, Perm, Permᴰ}
use mathlib.Core.List.Perm
use mathlib.Core.Option.{some}
use native.Mathlib.Omega.{arith}
use native.Mathlib.Nat.{ℕ_set}
use native.Mathlib.Decide.{ℕ_discrete}
use bmrng.Prelude.Lists.{length, get_elem?, set, get_elem?-set_self, get_elem?-set_ne}

module _ {ℓ} {A : Type ℓ} where
  pub get_elem?-lt : (xs : List A) (i : ℕ) {x : A} → get_elem? xs i ≡ some x → i < length xs
  get_elem?-lt [] i h = absurd (cc)
  get_elem?-lt (x ∷ xs) zero h = omega arith
  get_elem?-lt (x ∷ xs) (suc i) h = omega (arith, get_elem?-lt xs i h)

  pub get_elem?-some : (xs : List A) (i : ℕ) → i < length xs → (x : A) × (get_elem? xs i ≡ some x)
  get_elem?-some [] i h = elim h [ ]
  get_elem?-some (x ∷ xs) zero h = (x, refl)
  get_elem?-some (x ∷ xs) (suc i) h = get_elem?-some xs i (omega arith)

  pub set-exchange :
      (xs : List A) (i : ℕ) (x y : A) → get_elem? xs i ≡ some x → Perm (x ∷ set xs i y) (y ∷ xs)
  set-exchange [] i x y h = absurd (cc)
  set-exchange (a ∷ xs) zero x y h =
      Perm.trans (Perm.swap y x xs) (Perm.cons y (Perm.cons' (cc) Perm.rfl))
  set-exchange (a ∷ xs) (suc i) x y h =
      Perm.trans (Perm.swap a x (set xs i y))
        (Perm.trans (Perm.cons a (set-exchange xs i x y h)) (Perm.swap y a xs))

  pub set-set-perm :
      (xs : List A) (i j : ℕ) (a b : A)
      → get_elem? xs i ≡ some a
      → get_elem? xs j ≡ some b
      → Perm (set (set xs i b) j a) xs
  set-set-perm xs i j a b p q =
      Perm.cons_inv {a = b}
        (Perm.trans (set-exchange (set xs i b) j b a moved) (set-exchange xs i a b p))
    where
      moved : get_elem? (set xs i b) j ≡ some b
      moved = elim (ℕ_discrete i j) [
        | yes e ↦ rw (← e) (get_elem?-set_self xs i b (get_elem?-lt xs i p))
        | no ne ↦ rw (get_elem?-set_ne xs {i = i} {j = j} b ne) q
      ]

  permᴰ-length : {xs ys : List A} → Permᴰ xs ys → length xs ≡ length ys
  permᴰ-length Permᴰ.nil = refl
  permᴰ-length (Permᴰ.cons x p) = ap suc (permᴰ-length p)
  permᴰ-length (Permᴰ.swap e f) = refl
  permᴰ-length (Permᴰ.trans p q) = permᴰ-length p ∙ permᴰ-length q

  pub perm-length : {xs ys : List A} → Perm xs ys → length xs ≡ length ys
  perm-length {xs} {ys} p = ∥∥₁_elim p (ℕ_set (length xs) (length ys)) permᴰ-length
