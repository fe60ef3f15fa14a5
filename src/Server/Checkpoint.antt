-- ===== src/Server/Checkpoint.antt =====
-- server/checkpoint/: the keys that the anytrust group has seen tokens for, the messages signed with
-- them, and the two handlers. Tokens, points and signatures are parameters.
pub mod Counting
pub mod Admitting
pub mod Once
pub mod Complete
pub mod Examples
use bmrng.Prelude.{
  ℕ, ◌+◌, Bool, true, false, ◌==◌, if◌then◌else◌, Option, none, some, List, [], ◌∷◌, ◌++◌, length,
  map,
}
use bmrng.Prelude.Int.{ℤ}
use bmrng.Prelude.Assoc.{bytes_eq, lookup, insert}
use bmrng.Prelude.Outcome.{
  Outcome, ok, err, panic, check, require, attempt, key_not_found, duplicate, token_invalid,
  bad_element, decryption_failure, length_invalid, ◌>>=◌, ◌>>◌,
}
use bmrng.Prelude.Bytes.{Bytes, make, slice, copy_at}
use bmrng.Crypto.Keys.{key_size, lookup_key, pack_key, interpret_key}
use bmrng.Server.Envelopes.{FinalLightningMessage, interpret_final, token_content}

pub record VerificationKeyTable : Type 0 where
  pub keys : List (Bytes × Bool)
  pub count : ℕ

unfoldable pub add : VerificationKeyTable → Bytes → Outcome VerificationKeyTable
add t key = lookup_key key >>= λ buf. ok (record t { keys = insert buf false t.keys })

unfoldable pub mark_key : VerificationKeyTable → Bytes → Outcome VerificationKeyTable
mark_key t buf = elim (lookup buf t.keys) [
  | none ↦ err key_not_found
  | some true ↦ err duplicate
  | some false ↦ ok (record { keys = insert buf true t.keys; count = t.count + 1 })
]

-- `GetAndMark`; on an error the table is as it was.
unfoldable pub get_and_mark : VerificationKeyTable → Bytes → Outcome VerificationKeyTable
get_and_mark t key = lookup_key key >>= λ buf. mark_key t buf

unfoldable pub unmark : List (Bytes × Bool) → List (Bytes × Bool)
unmark [] = []
unmark ((k, used) ∷ rest) = (k, false) ∷ unmark rest

unfoldable pub reset_signature_marking : VerificationKeyTable → VerificationKeyTable
reset_signature_marking t = record { keys = unmark t.keys; count = 0 }

pub record Checkpoint : Type 0 where
  pub num_layers : ℤ
  pub anonymous_signing_keys : VerificationKeyTable
  pub final_messages : List Bytes

-- `NewCheckpointState`.
unfoldable pub new : ℤ → Checkpoint
new num_layers = record {
  num_layers = num_layers;
  anonymous_signing_keys = record { keys = []; count = 0 };
  final_messages = [];
}

unfoldable pub all_signatures_accounted_for : Checkpoint → Bool
all_signatures_accounted_for c =
    c.anonymous_signing_keys.count == length c.anonymous_signing_keys.keys

module _ (verify_message : Bytes → Bytes → Bytes → Bool) where
  -- `HandleTrusteeMessage` behind the parsing.
  unfoldable pub accept_final : Checkpoint → FinalLightningMessage → Checkpoint × Outcome (Unit {0})
  accept_final c fm =
      attempt c (get_and_mark c.anonymous_signing_keys fm.anonymous_verification_key) λ keys.
        let c' = record c { anonymous_signing_keys = keys } in
        if verify_message fm.anonymous_verification_key fm.message fm.signature
        then (record c' { final_messages = c'.final_messages ++ fm.message ∷ [] }, ok tt)
        else (c', err decryption_failure)

  unfoldable pub handle_trustee_message : Checkpoint → Bytes → Checkpoint × Outcome (Unit {0})
  unfolding accept_final
  handle_trustee_message c message = attempt c (interpret_final message) (accept_final c)

pub record CheckpointInfo (Token : Type 0) : Type 0 where
  pub anonymous_verification_key : Bytes
  pub token : Token

abbrev pub point_size : ℕ
point_size = 32

abbrev pub response_length : ℕ
response_length = key_size + point_size

module _ {Token Point : Type 0} (token_size : ℕ) (interpret_token : Bytes → Outcome Token)
    (verify_token : Token → Bytes → Bool) (to_curve_point : Bytes → Option Point)
    (mul_share : Point → Point) (point_bytes : Point → Bytes) where
  -- `CheckpointInfo.InterpretFrom`.
  unfoldable pub interpret_info : Bytes → Outcome (CheckpointInfo Token)
  interpret_info b = do
    require (length b == token_size + key_size) length_invalid
    key ← slice b 0 key_size
    rest ← slice b key_size (length b)
    token ← interpret_token rest
    ok (record { anonymous_verification_key = key; token = token })

  -- `CheckpointResponse.PackTo`.
  unfoldable pub pack_response : Bytes → Point → Bytes → Outcome Bytes
  pack_response public_key partial_key b = do
    check (length b == response_length)
    b₁ ← copy_at b 0 key_size public_key
    b₂ ← copy_at b₁ key_size (length b₁) (point_bytes partial_key)
    ok b₂

  -- `HandleCheckpointMessage` from the check of the token on.
  unfoldable pub admit_key :
      Checkpoint → ℤ → CheckpointInfo Token → Bytes → Checkpoint × Outcome Bytes
  admit_key c sender cm response =
      let key = cm.anonymous_verification_key in
      attempt c (token_content key c.num_layers c.num_layers sender) λ content.
        if verify_token cm.token content
        then elim (to_curve_point key) [
          | none ↦ (c, err bad_element)
          | some pt ↦ attempt c (add c.anonymous_signing_keys key) λ keys.
              let c' = record c { anonymous_signing_keys = keys } in
              (
                c',
                lookup_key key >>= λ public_key. pack_response public_key (mul_share pt) response,
              )
        ]
        else (c, err token_invalid)

  -- `HandleCheckpointMessage`: the response is filled in and returned.
  unfoldable pub handle_checkpoint_message :
      Checkpoint → ℤ → Bytes → Bytes → Checkpoint × Outcome Bytes
  unfolding admit_key
  handle_checkpoint_message c sender message response =
      attempt c (interpret_info message) λ cm. admit_key c sender cm response
