-- ===== src/Crypto/Token.antt =====
-- crypto/token/: tokens that a group signs without seeing them. The groups of the pairing, the hash to
-- the curve, the order test and the pairing check are parameters.
pub mod Issuing
pub mod Examples
use bmrng.Prelude.{ℕ, Bool, true, false, if◌then◌else◌, not, ◌&&◌, List, [], ◌∷◌, map}
use bmrng.Prelude.Outcome.{Outcome, ok, err, require, bad_element, token_invalid, ◌>>=◌, ◌>>◌}
use bmrng.Prelude.Bytes.{Bytes}
use bmrng.Crypto.Dhkx.{Group, accumulate}
use bmrng.Crypto.Pairing.{additive_shares}

-- `X` is the share in the second group.
pub record TokenSigningKey (Scalar Point2 : Type 0) : Type 0 where
  pub x : Point2
  pub share : Scalar

-- `TokenIssuanceInformation`, without the pointer to the key.
pub record TokenIssuanceInformation (Scalar Point : Type 0) : Type 0 where
  pub hash : Point
  pub blinding : Scalar

module _ {Scalar Point Point2 : Type 0} (g : Group Scalar Point) (g2 : Group Scalar Point2)
    (generator : Point2) where
  -- `NewTokenSigningKey`.
  unfoldable pub new_signing_key : Scalar → TokenSigningKey Scalar Point2
  new_signing_key share = record { x = g2.scale share generator; share = share }

  -- `MockKeyGen`: the keys of the members, the public key and the master key.
  unfoldable pub mock_key_gen :
      ℕ
      → Scalar
      → (ℕ → Scalar)
      → Outcome (List (TokenSigningKey Scalar Point2) × Point2 × TokenSigningKey Scalar Point2)
  unfolding new_signing_key
  mock_key_gen num_shares secret random = do
    let master = new_signing_key secret
    shares ← additive_shares g secret num_shares random
    ok (map new_signing_key shares, master.x, master)

  module _ (hash_and_map_to : Bytes → Point) (skip_token : Bool) (is_valid_order : Point → Bool)
      (pairing_check : Point2 → Point → Point → Bool) where
    -- `Prepare` with the blinding given: what is sent to be signed, and what the client keeps.
    unfoldable pub prepare : Bytes → Scalar → Point × TokenIssuanceInformation Scalar Point
    prepare message blinding =
        let hash = hash_and_map_to message in
        (g.scale blinding hash, record { hash = hash; blinding = blinding })

    -- `BlindSign`.
    unfoldable pub blind_sign : TokenSigningKey Scalar Point2 → Point → Outcome Point
    blind_sign t blinded_hash =
        if not skip_token && not (is_valid_order blinded_hash)
        then err bad_element
        else ok (g.scale t.share blinded_hash)

    -- `combine`, from the cleared point.
    unfoldable pub combine : List Point → Point
    combine partials = accumulate g g.identity partials

    unfoldable pub unblind : Point → Scalar → Point
    unblind m r = g.scale (g.inv r) m

    -- `verify`, with the public key `x`.
    unfoldable pub verify_token : Point2 → Point → Point → Bool
    verify_token x signature hash =
        if is_valid_order signature then pairing_check x signature hash else false

    -- `Create`.
    unfoldable pub create :
        Point2 → TokenIssuanceInformation Scalar Point → List Point → Outcome Point
    unfolding combine unblind verify_token
    create x info partials =
        let token = unblind (combine partials) info.blinding in
        if verify_token x token info.hash then ok token else err token_invalid

    -- `VerifyMessage`.
    unfoldable pub verify_token_message : Point2 → Point → Bytes → Bool
    unfolding verify_token
    verify_token_message x token message = verify_token x token (hash_and_map_to message)
