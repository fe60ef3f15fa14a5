-- ===== src/Server/Client/Delivering.antt =====
-- A client's message from its submission to what the trustees read.
use bmrng.Prelude.{ℕ, ◌≡◌, sym, ap, ◌∙◌, Bool, some, List, [], ◌++◌, length, get_elem?}
use bmrng.Prelude.Int.{ℤ}
use bmrng.Prelude.Outcome.{ok, ◌>>=◌}
use bmrng.Prelude.Bytes.{Bytes}
use bmrng.Crypto.Keys.{key_size, signature_size}
use bmrng.Crypto.Sealing.Opening.{IsStreamCipher}
use bmrng.Server.Envelopes.{
  FinalLightningMessage, marshal_signed, marshal_lightning, interpret_final,
}
use bmrng.Server.Envelopes.RoundTrip.{
  without_key, marshal_lightning_lem, marshal_final_lem, interpret_final-marshal_final,
}
use bmrng.Server.Onion.{OnionParser}
use bmrng.Server.Client.{PathKey, get_final_message, onion_encrypt, lightning_submission}
use bmrng.Server.Client.Relaying.{IsPath, relay, sent_and_relayed}

-- A whole final message is read from its fields.
interpret_final-append :
    (l : FinalLightningMessage)
    → length l.anonymous_verification_key ≡ key_size
    → length l.signature ≡ signature_size
    → interpret_final (l.anonymous_verification_key ++ (l.signature ++ l.message)) ≡ ok l
interpret_final-append l lk ls =
    sym (ap (λ o. o >>= interpret_final) (marshal_final_lem l lk ls))
    ∙ interpret_final-marshal_final l lk ls

get_final_message_lem :
    (path_keys : List PathKey) (num_layers : ℕ) (message : Bytes) (final_key : PathKey)
    → get_elem? path_keys num_layers ≡ some final_key
    → get_final_message path_keys num_layers message
      ≡ ok (record {
        anonymous_verification_key = [];
        signature = final_key.signing_key message;
        message = message;
      })
unfolding get_final_message marshal_signed
get_final_message_lem path_keys num_layers message final_key known = rw (get_final_message, known)

pub submission :
    (xor_key_stream : Bytes → Bytes → Bytes → Bytes) (round : ℤ) (num_layers : ℕ)
    (routing_key message c : Bytes) (path_keys layers : List PathKey) (final_key : PathKey)
    → length (final_key.signing_key message) ≡ signature_size
    → get_elem? path_keys num_layers ≡ some final_key
    → onion_encrypt xor_key_stream round 0 layers (final_key.signing_key message ++ message) ≡ ok c
    → lightning_submission xor_key_stream round num_layers routing_key path_keys layers message
      ≡ ok (record { key = routing_key; signed_ciphertext = c; raw = [] })
unfolding lightning_submission
submission xor round num_layers routing_key message c path_keys layers final_key ls known
      encrypted =
    let l : FinalLightningMessage = record {
      anonymous_verification_key = [];
      signature = final_key.signing_key message;
      message = message;
    } in
    rw (
      lightning_submission,
      get_final_message_lem path_keys num_layers message final_key known,
      without_key l ls,
      encrypted,
    )

module _ {Expanded : Type 0} (xor_key_stream : Bytes → Bytes → Bytes → Bytes)
    (verify : Bytes → Bytes → Bytes → Bool)
    (verify_expanded : Expanded → Bytes → Bytes → Bool) where
  -- A message is delivered. If a client has the keys of a path that has been set up through the
  -- servers of all layers, and a signing key behind the last layer, then the envelope that it submits,
  -- peeled by the servers of the path in order, is parsed as the final message: under the key behind
  -- the path, with the client's signature on the message, and the message itself.
  pub lightning_submission-relay :
      (round : ℤ) (num_layers : ℕ) (routing_key last message : Bytes)
      (os : List (OnionParser Expanded)) (path_keys layers : List PathKey) (final_key : PathKey)
      → IsStreamCipher xor_key_stream
      → length routing_key ≡ key_size
      → length last ≡ key_size
      → length (final_key.signing_key message) ≡ signature_size
      → get_elem? path_keys num_layers ≡ some final_key
      → IsPath xor_key_stream verify verify_expanded round 0 routing_key os layers last
      → (lightning_submission xor_key_stream round num_layers routing_key path_keys layers message
          >>= marshal_lightning
          >>= relay xor_key_stream verify verify_expanded os
          >>= interpret_final)
        ≡ ok (record {
          anonymous_verification_key = last;
          signature = final_key.signing_key message;
          message = message;
        })
  lightning_submission-relay round num_layers routing_key last message os path_keys layers final_key
        cipher lk ll ls known path =
      let s = final_key.signing_key message in
      let l : FinalLightningMessage = record {
        anonymous_verification_key = [];
        signature = s;
        message = message;
      } in
      let (c, encrypted, relayed) =
        sent_and_relayed xor_key_stream verify verify_expanded round 0 routing_key last
          (s ++ message) os layers cipher path in
      rw
        (
          submission xor_key_stream round num_layers routing_key message c path_keys layers
              final_key ls known encrypted,
          marshal_lightning_lem (record { key = routing_key; signed_ciphertext = c; raw = [] }) lk,
          relayed,
        )
        (interpret_final-append (record l { anonymous_verification_key = last }) ll ls)
