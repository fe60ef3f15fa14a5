-- ===== src/Crypto/Token/Issuing.antt =====
-- A token from its request to its verification.
use bmrng.Prelude.{
  ◌≡◌, ◌≢◌, refl, sym, ap, ◌∙◌, ℕ, Bool, true, false, not, ◌&&◌, suc, List, [], ◌∷◌, map,
}
use bmrng.Prelude.Outcome.{Outcome, ok, ◌>>=◌}
use bmrng.Prelude.Bytes.{Bytes}
use bmrng.Crypto.Dhkx.{Group, IsGroup}
use bmrng.Crypto.Pairing.{accumulate-additive_shares}
use bmrng.Crypto.Token.{
  TokenSigningKey, new_signing_key, mock_key_gen, prepare, blind_sign, combine, unblind,
  verify_token, create, verify_token_message,
}

module _ {Scalar Point Point2 : Type 0} (g : Group Scalar Point) (g2 : Group Scalar Point2)
    (generator : Point2) (hash_and_map_to : Bytes → Point) (skip_token : Bool)
    (is_valid_order : Point → Bool) (pairing_check : Point2 → Point → Point → Bool) where
  -- What the members of a group answer to a request: the first error, or their signatures in order.
  unfoldable pub sign_all : List (TokenSigningKey Scalar Point2) → Point → Outcome (List Point)
  sign_all [] b = ok []
  sign_all (t ∷ ts) b = do
    s ← blind_sign g g2 generator hash_and_map_to skip_token is_valid_order pairing_check t b
    rest ← sign_all ts b
    ok (s ∷ rest)

  blind_sign_lem :
      (s : Scalar) (b : Point)
      → is_valid_order b ≡ true
      → blind_sign g g2 generator hash_and_map_to skip_token is_valid_order pairing_check
          (new_signing_key g g2 generator s)
          b
        ≡ ok (g.scale s b)
  unfolding blind_sign new_signing_key
  blind_sign_lem s b valid = rw (valid, and_false (not skip_token))
    where
      and_false : (c : Bool) → (c && false) ≡ false
      and_false true = refl
      and_false false = refl

  sign_all_lem :
      (shares : List Scalar) (b : Point)
      → is_valid_order b ≡ true
      → sign_all (map (new_signing_key g g2 generator) shares) b
        ≡ ok (map (λ s. g.scale s b) shares)
  unfolding sign_all
  sign_all_lem [] b valid = refl
  sign_all_lem (s ∷ shares) b valid = rw (blind_sign_lem s b valid, sign_all_lem shares b valid)

  -- A client's token of a message from a group of `n + 1` members, and whether it verifies.
  unfoldable pub issue : Scalar → Scalar → ℕ → (ℕ → Scalar) → Bytes → Outcome (Point × Bool)
  issue secret r n random message = do
    (keys, x, master) ← mock_key_gen g g2 generator (suc n) secret random
    let (b, info) =
        prepare g g2 generator hash_and_map_to skip_token is_valid_order pairing_check message r
    partials ← sign_all keys b
    t ←
        create g g2 generator hash_and_map_to skip_token is_valid_order pairing_check x info
          partials
    ok (
      t,
      verify_token_message g g2 generator hash_and_map_to skip_token is_valid_order pairing_check x
          t message,
    )

  module _ (h : IsGroup g) where
    unblind_lem :
        (secret r : Scalar) (p : Point)
        → r ≢ g.zero_scalar
        → unblind g g2 generator hash_and_map_to skip_token is_valid_order pairing_check
            (g.scale secret (g.scale r p))
            r
          ≡ g.scale secret p
    unfolding unblind
    unblind_lem secret r p apart =
        sym (h.scale-mul (g.inv r) secret (g.scale r p))
        ∙ (ap (λ s. g.scale s (g.scale r p)) (h.mul_comm (g.inv r) secret)
            ∙ (h.scale-mul secret (g.inv r) (g.scale r p)
                ∙ ap (g.scale secret) (
                    sym (h.scale-mul (g.inv r) r p)
                    ∙ (ap (λ s. g.scale s p) (h.mul_comm (g.inv r) r ∙ h.mul_inv r apart)
                        ∙ h.scale_one p))))

    -- A token that a group has signed. A client blinds its message with a scalar that is not zero, the
    -- members of a group sign what it sends with the shares that `MockKeyGen` made of a secret, and the
    -- client makes a token of all their answers. Then no call fails, the token is the product of the
    -- secret and the hash of the message, whatever the scalars drawn and the blinding were, and it
    -- verifies under the group's public key, if the scalars and points are a field and its group, all
    -- products of a hash pass the order test, and the pairing check accepts a point's product with a
    -- secret under the product of the generator with it.
    pub create-prepare :
        (secret r : Scalar) (n : ℕ) (random : ℕ → Scalar) (message : Bytes)
        → r ≢ g.zero_scalar
        → ((s : Scalar) → is_valid_order (g.scale s (hash_and_map_to message)) ≡ true)
        → ((s : Scalar) (p : Point) → pairing_check (g2.scale s generator) (g.scale s p) p ≡ true)
        → issue secret r n random message ≡ ok (g.scale secret (hash_and_map_to message), true)
    unfolding issue mock_key_gen prepare create combine verify_token_message verify_token
        new_signing_key
    create-prepare secret r n random message apart order bilinear =
        let hash = hash_and_map_to message in
        let (shares, made, summed) =
          accumulate-additive_shares g h secret n random (g.scale r hash) in
        rw
          (
            made,
            sign_all_lem shares (g.scale r hash) (order r),
            summed,
            unblind_lem secret r hash apart,
            order secret,
            bilinear secret hash,
          )
          (rw (order secret, bilinear secret hash))
