-- ===== src/Crypto/Dhkx/Sharing.antt =====
-- Shares are as good as the secret they were made of.
use bmrng.Prelude.{ℕ, zero, suc, ◌+◌, ◌≡◌, refl, sym, ap, ◌∙◌, List, [], ◌∷◌, map}
use bmrng.Prelude.Outcome.{ok}
use bmrng.Crypto.Dhkx.{Group, IsGroup, shares_loop, additive_shares, accumulate_scalars, accumulate}

module _ {Scalar Point : Type 0} (g : Group Scalar Point) (h : IsGroup g) where
  -- What was accumulated before comes out of the sum.
  pub accumulate_scalars-add :
      (r s : Scalar) (os : List Scalar)
      → accumulate_scalars g (g.add r s) os ≡ g.add r (accumulate_scalars g s os)
  unfolding accumulate_scalars
  accumulate_scalars-add r s [] = refl
  accumulate_scalars-add r s (o ∷ os) =
      ap (λ d. accumulate_scalars g d os) (h.add_assoc r s o)
      ∙ accumulate_scalars-add r (g.add s o) os

  -- The first share of the loop has collected the random ones.
  shares_loop_lem :
      (n i : ℕ) (random : ℕ → Scalar) (first : Scalar)
      → (shares_loop g n i random first).0
        ≡ accumulate_scalars g first (shares_loop g n i random first).1
  unfolding shares_loop accumulate_scalars
  shares_loop_lem zero i random first = refl
  shares_loop_lem (suc n) i random first = shares_loop_lem n (i + 1) random (g.add first (random i))

  pub zero-add : (s : Scalar) → g.add g.zero_scalar s ≡ s
  zero-add s = h.add_comm g.zero_scalar s ∙ h.add_zero s

  from_zero :
      (d : Scalar) (os : List Scalar)
      → accumulate_scalars g d os ≡ g.add d (accumulate_scalars g g.zero_scalar os)
  from_zero d os =
      ap (λ c. accumulate_scalars g c os) (sym (h.add_zero d))
      ∙ accumulate_scalars-add d g.zero_scalar os

  -- `-(-s + x) + x` is `s`.
  cancel : (s x : Scalar) → g.add (g.neg (g.add (g.neg s) x)) x ≡ s
  cancel s x =
      let y = g.neg (g.add (g.neg s) x) in
      sym (zero-add (g.add y x))
      ∙ (ap (λ z. g.add z (g.add y x)) (sym (h.add_neg s))
          ∙ (h.add_assoc s (g.neg s) (g.add y x)
              ∙ (ap (g.add s) (
                    ap (g.add (g.neg s)) (h.add_comm y x)
                    ∙ (sym (h.add_assoc (g.neg s) x y) ∙ h.add_neg (g.add (g.neg s) x)))
                  ∙ h.add_zero s)))

  -- The shares of a secret, for any number of shares above zero and any random scalars, accumulate to
  -- the secret.
  pub accumulate_scalars-additive_shares :
      (secret : Scalar) (n : ℕ) (random : ℕ → Scalar) (shares : List Scalar)
      → additive_shares g secret n random ≡ ok shares
      → accumulate_scalars g g.zero_scalar shares ≡ secret
  unfolding additive_shares accumulate_scalars
  accumulate_scalars-additive_shares secret zero random shares e = cc
  accumulate_scalars-additive_shares secret (suc n) random shares e =
      let (first, rest) = shares_loop g n 1 random (g.neg secret) in
      ap (accumulate_scalars g g.zero_scalar) (sym (same_list e))
      ∙ (ap (λ d. accumulate_scalars g d rest) (zero-add (g.neg first))
          ∙ (from_zero (g.neg first) rest
              ∙ (ap (λ d. g.add (g.neg d) (accumulate_scalars g g.zero_scalar rest))
                    (shares_loop_lem n 1 random (g.neg secret) ∙ from_zero (g.neg secret) rest)
                  ∙ cancel secret (accumulate_scalars g g.zero_scalar rest))))
    where
      same_list : {x y : List Scalar} → ok x ≡ ok y → x ≡ y
      same_list e = cc

  pub accumulate-scale :
      (d : Scalar) (p : Point) (shares : List Scalar)
      → accumulate g (g.scale d p) (map (λ s. g.scale s p) shares)
        ≡ g.scale (accumulate_scalars g d shares) p
  unfolding accumulate accumulate_scalars
  accumulate-scale d p [] = refl
  accumulate-scale d p (o ∷ os) =
      ap (λ q. accumulate g q (map (λ s. g.scale s p) os)) (sym (h.scale-add d o p))
      ∙ accumulate-scale (g.add d o) p os

  -- Decryption by a group. The products of a point with the shares of a secret, accumulated from the
  -- identity, are its product with the secret.
  pub accumulate-additive_shares :
      (secret : Scalar) (n : ℕ) (random : ℕ → Scalar) (shares : List Scalar) (p : Point)
      → additive_shares g secret n random ≡ ok shares
      → accumulate g g.identity (map (λ s. g.scale s p) shares) ≡ g.scale secret p
  accumulate-additive_shares secret n random shares p e =
      ap (λ q. accumulate g q (map (λ s. g.scale s p) shares)) (sym (h.scale_zero p))
      ∙ (accumulate-scale g.zero_scalar p shares
          ∙ ap (λ d. g.scale d p) (accumulate_scalars-additive_shares secret n random shares e))
