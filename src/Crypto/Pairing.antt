-- ===== src/Crypto/Pairing.antt =====
-- crypto/pairing/pairing.go: the shares of a scalar of the pairing groups; `FrSub` adds the negation.
use bmrng.Prelude.{ℕ, zero, suc, ◌+◌, ◌≡◌, refl, sym, ap, ◌∙◌, List, [], ◌∷◌, map}
use bmrng.Prelude.Outcome.{Outcome, ok, panic}
use bmrng.Crypto.Dhkx.{Group, IsGroup, accumulate_scalars, accumulate}
use bmrng.Crypto.Dhkx.Sharing.{accumulate_scalars-add, zero-add, accumulate-scale}

module _ {Scalar Point : Type 0} (g : Group Scalar Point) where
  -- The loop of `AdditiveShares`: the first share, and the random ones behind it.
  unfoldable pub subtract_loop : ℕ → ℕ → (ℕ → Scalar) → Scalar → Scalar × List Scalar
  subtract_loop zero i random first = (first, [])
  subtract_loop (suc n) i random first =
      let (last, rest) = subtract_loop n (i + 1) random (g.add first (g.neg (random i))) in
      (last, random i ∷ rest)

  -- `AdditiveShares`; `random i` is the scalar drawn in the round `i`. Without shares the index panics.
  unfoldable pub additive_shares : Scalar → ℕ → (ℕ → Scalar) → Outcome (List Scalar)
  unfolding subtract_loop
  additive_shares secret zero random = panic
  additive_shares secret (suc n) random =
      let (first, rest) = subtract_loop n 1 random secret in ok (first ∷ rest)

  module _ (h : IsGroup g) where
    restore : (s x : Scalar) → g.add x (g.add s (g.neg x)) ≡ s
    restore s x =
        h.add_comm x (g.add s (g.neg x))
        ∙ (h.add_assoc s (g.neg x) x
            ∙ (ap (g.add s) (h.add_comm (g.neg x) x ∙ h.add_neg x) ∙ h.add_zero s))

    -- What the loop has taken off is in the shares behind.
    subtract_loop_lem :
        (n i : ℕ) (random : ℕ → Scalar) (first : Scalar)
        → accumulate_scalars g (subtract_loop n i random first).0 (subtract_loop n i random first).1
          ≡ first
    unfolding subtract_loop accumulate_scalars
    subtract_loop_lem zero i random first = refl
    subtract_loop_lem (suc n) i random first =
        let x = random i in
        let (last, rest) = subtract_loop n (i + 1) random (g.add first (g.neg x)) in
        ap (λ d. accumulate_scalars g d rest) (h.add_comm last x)
        ∙ (accumulate_scalars-add g h x last rest
            ∙ (ap (g.add x) (subtract_loop_lem n (i + 1) random (g.add first (g.neg x)))
                ∙ restore first x))

    -- The products of the shares with a point add up to the product with the secret.
    pub accumulate-additive_shares :
        (secret : Scalar) (n : ℕ) (random : ℕ → Scalar) (p : Point)
        → (shares : List Scalar) × (additive_shares secret (suc n) random ≡ ok shares)
          × (accumulate g g.identity (map (λ s. g.scale s p) shares) ≡ g.scale secret p)
    unfolding additive_shares accumulate_scalars
    accumulate-additive_shares secret n random p =
        let (first, rest) = subtract_loop n 1 random secret in
        (
          first ∷ rest,
          refl,
          ap (λ q. accumulate g q (map (λ s. g.scale s p) (first ∷ rest))) (sym (h.scale_zero p))
              ∙ (accumulate-scale g h g.zero_scalar p (first ∷ rest)
                  ∙ ap (λ d. g.scale d p)
                      (ap (λ d. accumulate_scalars g d rest) (zero-add g h first)
                        ∙ subtract_loop_lem n 1 random secret)),
        )
