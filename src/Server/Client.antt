-- ===== src/Server/Client.antt =====
-- server/prepareMessages/client.go: what a client makes of a message, layer by layer. A signing key is
-- the function that signs with it; random bytes and tokens are arguments.
pub mod Relaying
pub mod Delivering
pub mod Sizes
pub mod Examples
use bmrng.Prelude.{
  ℕ, zero, suc, ◌+◌, ◌-◌, ◌==◌, Bool, true, false, if◌then◌else◌, Option, none, some, List, [], ◌∷◌,
  length, get_elem?, set, replicate,
}
use bmrng.Prelude.Int.{ℤ, pos}
use bmrng.Prelude.Outcome.{Outcome, ok, panic, ◌>>=◌}
use bmrng.Prelude.Bytes.{Bytes}
use bmrng.Crypto.Sealing.{nonce, signed_secret_seal}
use bmrng.Server.Envelopes.{
  FinalLightningMessage, LightningEnvelope, marshal_signed, marshal_without_key,
}
use bmrng.Server.Paths.{PathEstablishmentEnvelope, marshal_info}

-- The keys of one layer, of the server there and of the one before.
pub record PathKey : Type 0 where
  pub signing_key : Bytes → Bytes
  pub server_id : ℤ
  pub shared : Bytes
  pub prev_server_id : ℤ
  pub prev_shared : Bytes

-- `GetFinalMessage`, with the key behind the last layer: the anonymous key is not set here.
unfoldable pub get_final_message : List PathKey → ℕ → Bytes → Outcome FinalLightningMessage
get_final_message path_keys num_layers message = elim (get_elem? path_keys num_layers) [
  | none ↦ panic
  | some key ↦
      (let l : FinalLightningMessage = record {
        anonymous_verification_key = [];
        signature = [];
        message = message;
      } in
        ok (record l { signature = key.signing_key (marshal_signed l) }))
]

module _ (xor_key_stream : Bytes → Bytes → Bytes → Bytes) where
  -- `Encrypt`.
  unfoldable pub encrypt : Bytes → PathKey → ℤ → ℤ → ℤ → Bool → Outcome Bytes
  encrypt message key round layer server_id boomerang = do
    n ← nonce round layer server_id
    let shared_key = if boomerang then key.prev_shared else key.shared
    signed_secret_seal xor_key_stream message n shared_key key.signing_key

  -- `OnionEncrypt`, of the keys from the layer `layer` on: the last layer is encrypted first.
  unfoldable pub onion_encrypt : ℤ → ℕ → List PathKey → Bytes → Outcome Bytes
  unfolding encrypt
  onion_encrypt round layer [] message = ok message
  onion_encrypt round layer (key ∷ keys) message = do
    inner ← onion_encrypt round (layer + 1) keys message
    encrypt inner key round (pos layer) key.server_id false

  -- The envelope of `SendLightningMessage`: the keys of all layers, and the one behind the last.
  unfoldable pub lightning_submission :
      ℤ → ℕ → Bytes → List PathKey → List PathKey → Bytes → Outcome LightningEnvelope
  unfolding get_final_message onion_encrypt
  lightning_submission round num_layers routing_key path_keys layers message = do
    final ← get_final_message path_keys num_layers message
    inner ← marshal_without_key final
    c ← onion_encrypt round 0 layers inner
    ok (record { key = routing_key; signed_ciphertext = c; raw = [] })

  -- The loop of `BoomerangBase`, for `n` layers from `layer` on.
  unfoldable pub boomerang_loop : ℕ → ℕ → ℕ → ℕ → List PathKey → Bytes → Outcome Bytes
  unfolding encrypt
  boomerang_loop zero layer round num_layers path message = ok message
  boomerang_loop (suc n) layer round num_layers path message = elim (get_elem? path (layer + 1)) [
    | none ↦ panic
    | some next ↦ elim (get_elem? path layer) [
      | none ↦ panic
      | some here ↦
          encrypt message next (pos round) (pos (layer + num_layers)) here.server_id true
          >>= boomerang_loop n (layer + 1) round num_layers path
    ]
  ]

  -- `BoomerangBase` of the random bytes given; subtraction that stops at 0 is the test on `start`.
  unfoldable pub boomerang_base : ℕ → List PathKey → ℕ → ℕ → Bytes → Outcome Bytes
  unfolding boomerang_loop
  boomerang_base num_layers path round limit random =
      boomerang_loop (round - (round - limit)) (round - limit) round num_layers path random

  module _ {Token : Type 0} (token_size : ℕ) (token_bytes : Token → Bytes) (num_layers limit : ℕ)
      (path_keys : List PathKey) (tokens : List Token) (public_keys : List Bytes)
      (random : ℕ → Bytes) where
    -- The receipt of the layer `l`; the last goes through the anytrust group.
    unfoldable pub receipt_of : ℕ → Outcome Bytes
    unfolding boomerang_base encrypt
    receipt_of l = do
      base ← boomerang_base num_layers path_keys l limit (random l)
      if l + 1 == num_layers
          then elim (get_elem? path_keys num_layers) [
            | none ↦ panic
            | some key ↦ encrypt base key (pos num_layers) (pos num_layers) key.prev_server_id true
          ]
          else ok base

    -- One round of the loop: the next envelope goes inside that of the layer `l`.
    unfoldable pub envelope_of : ℕ → Bytes → Outcome Bytes
    unfolding receipt_of
    envelope_of l next_envelope = do
      boomerang ← receipt_of l
      out_token ← elim (get_elem? tokens (l + 1)) [ none ↦ panic | some t ↦ ok t ]
      out_key ← elim (get_elem? public_keys (l + 1)) [ none ↦ panic | some k ↦ ok k ]
      b ← marshal_info token_size token_bytes (record {
        out_key = out_key;
        out_token = out_token;
        boomerang_envelope = boomerang;
        next_envelope = next_envelope;
        raw = [];
      })
      key ← elim (get_elem? path_keys l) [ none ↦ panic | some k ↦ ok k ]
      encrypt b key (pos l) (pos l) key.server_id false

    -- The loop, over the layers below `n`, the last first.
    unfoldable pub envelope_loop : ℕ → Bytes → Outcome Bytes
    unfolding envelope_of
    envelope_loop zero next_envelope = ok next_envelope
    envelope_loop (suc l) next_envelope = envelope_of l next_envelope >>= envelope_loop l

    -- `MakeOptimizedPathEstablishmentMessage`, with the tokens and keys of `MakeTokensAndPath`.
    unfoldable pub make_path_message : Outcome (PathEstablishmentEnvelope Token)
    unfolding envelope_loop
    make_path_message = do
      c ← envelope_loop num_layers []
      in_token ← elim (get_elem? tokens 0) [ none ↦ panic | some t ↦ ok t ]
      in_key ← elim (get_elem? public_keys 0) [ none ↦ panic | some k ↦ ok k ]
      ok (record { in_key = in_key; in_token = in_token; signed_ciphertext = c; raw = [] })
