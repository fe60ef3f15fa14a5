-- ===== src/Crypto/Dhkx.antt =====
-- crypto/dhkx.go: key agreement and additive shares. The scalars and points of edwards25519, and of
-- the pairing groups, are parameters: `Group` has the library's operations and `IsGroup` their laws.
pub mod Sharing
use bmrng.Prelude.{ℕ, zero, suc, ◌+◌, ◌≡◌, ◌≢◌, List, [], ◌∷◌}
use bmrng.Prelude.Outcome.{Outcome, ok, panic}
use bmrng.Prelude.Bytes.{Bytes}

pub record Group (Scalar Point : Type 0) : Type 0 where
  pub zero_scalar : Scalar
  pub one_scalar : Scalar
  pub add : Scalar → Scalar → Scalar
  pub neg : Scalar → Scalar
  pub mul : Scalar → Scalar → Scalar
  pub inv : Scalar → Scalar
  pub identity : Point
  pub add_points : Point → Point → Point
  pub scale : Scalar → Point → Point

-- The scalars are a field, and act on the points.
pub record IsGroup {Scalar Point : Type 0} (g : Group Scalar Point) : Type 0 where
  pub add_assoc : (r s t : Scalar) → g.add (g.add r s) t ≡ g.add r (g.add s t)
  pub add_comm : (r s : Scalar) → g.add r s ≡ g.add s r
  pub add_zero : (s : Scalar) → g.add s g.zero_scalar ≡ s
  pub add_neg : (s : Scalar) → g.add s (g.neg s) ≡ g.zero_scalar
  pub mul_comm : (r s : Scalar) → g.mul r s ≡ g.mul s r
  pub mul_inv : (s : Scalar) → s ≢ g.zero_scalar → g.mul s (g.inv s) ≡ g.one_scalar
  pub scale_zero : (p : Point) → g.scale g.zero_scalar p ≡ g.identity
  pub scale_one : (p : Point) → g.scale g.one_scalar p ≡ p
  pub scale-add :
      (r s : Scalar) (p : Point) → g.scale (g.add r s) p ≡ g.add_points (g.scale r p) (g.scale s p)
  pub scale-mul : (r s : Scalar) (p : Point) → g.scale (g.mul r s) p ≡ g.scale r (g.scale s p)
  pub add_points_assoc :
      (p q r : Point) → g.add_points (g.add_points p q) r ≡ g.add_points p (g.add_points q r)
  pub add_points_identity : (p : Point) → g.add_points p g.identity ≡ p

module _ {Scalar Point : Type 0} (g : Group Scalar Point) where
  -- `SharedKey`: the bytes of the product.
  unfoldable pub shared_key : (Point → Bytes) → Scalar → Point → Bytes
  shared_key point_bytes d pk = point_bytes (g.scale d pk)

  -- `PublicKey`.
  unfoldable pub public_key : Point → Scalar → Point
  public_key base d = g.scale d base

  -- The loop of `AdditiveShares`: the first share, and the random ones behind it.
  unfoldable pub shares_loop : ℕ → ℕ → (ℕ → Scalar) → Scalar → Scalar × List Scalar
  shares_loop zero i random first = (first, [])
  shares_loop (suc n) i random first =
      let (last, rest) = shares_loop n (i + 1) random (g.add first (random i)) in
      (last, random i ∷ rest)

  -- `AdditiveShares`; `random i` is the scalar drawn in the round `i`. Without shares the index panics.
  unfoldable pub additive_shares : Scalar → ℕ → (ℕ → Scalar) → Outcome (List Scalar)
  unfolding shares_loop
  additive_shares secret zero random = panic
  additive_shares secret (suc n) random =
      let (first, rest) = shares_loop n 1 random (g.neg secret) in ok (g.neg first ∷ rest)

  -- `Accumulate`, of scalars one after the other.
  unfoldable pub accumulate_scalars : Scalar → List Scalar → Scalar
  accumulate_scalars d [] = d
  accumulate_scalars d (o ∷ os) = accumulate_scalars (g.add d o) os

  -- `Accumulate`, of points one after the other.
  unfoldable pub accumulate : Point → List Point → Point
  accumulate d [] = d
  accumulate d (o ∷ os) = accumulate (g.add_points d o) os
