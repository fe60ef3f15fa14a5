-- ===== src/Server/Onion/Routing.antt =====
-- What the router writes for the next server.
use bmrng.Prelude.{◌≤◌, ◌≡◌, refl, sym, ◌∙◌, false, some, [], length, drop, drop-append_at, arith}
use bmrng.Prelude.Int.{ℤ, int_eq}
use bmrng.Prelude.Assoc.{lookup, insert}
use bmrng.Prelude.Outcome.{ok, ◌>>=◌}
use bmrng.Prelude.Bytes.{Bytes, make}
use bmrng.Prelude.Pack.{copy_last}
use bmrng.Crypto.Keys.{key_size, lookup_key}
use bmrng.Crypto.Sealing.{symmetric_key_size, overhead}
use bmrng.Crypto.Sealing.Opening.{IsStreamCipher, nonce_bytes}
use bmrng.Network.Buffer.{MemReadWriter, write}
use bmrng.Server.Envelopes.RoundTrip.{marshal_lightning_lem}
use bmrng.Server.Envelopes.Peeling.{seal_envelope, box, seal_envelope_lem}
use bmrng.Server.KeyTable.{BootstrapKey}
use bmrng.Server.Onion.{LightningRouter, outgoing_envelope, authenticated_onion_pack}

-- A whole key is its own lookup key.
pub lookup_key_whole : (key : Bytes) → length key ≡ key_size → lookup_key key ≡ ok key
unfolding lookup_key
lookup_key_whole key l = copy_last [] (make key_size) key 0 key_size refl (sym l) (omega arith)

-- The router sends on the envelope that the client sealed for the next server. If the plaintext of a
-- message is the box of an envelope `b` that was sealed under the outgoing key of its record, for any
-- round, layer and server, then the router writes `b` itself, byte for byte, to the buffer of the
-- next server, and to no other.
pub authenticated_onion_pack-seal_envelope :
    {Expanded : Type 0} (xor_key_stream : Bytes → Bytes → Bytes → Bytes) (l : LightningRouter)
    (k : BootstrapKey Expanded) (buffer : MemReadWriter) (message shared_key b : Bytes)
    (signer : Bytes → Bytes) (round layer server : ℤ)
    → IsStreamCipher xor_key_stream
    → length k.outgoing_verification_key ≡ key_size
    → symmetric_key_size ≤ length shared_key
    → ((d : Bytes) → length (signer d) ≡ overhead)
    → seal_envelope xor_key_stream k.outgoing_verification_key message shared_key signer round layer
        server
      ≡ ok b
    → lookup k.next_server l ≡ some buffer
    → authenticated_onion_pack l (drop key_size b) k false
      ≡ (write buffer b >>= λ buffer'. ok (insert k.next_server buffer' l))
unfolding authenticated_onion_pack outgoing_envelope
authenticated_onion_pack-seal_envelope xor l k buffer message shared_key b signer round layer server
      cipher lk ls sig sealed known =
    let key = k.outgoing_verification_key in
    let x = box xor message shared_key signer (nonce_bytes round layer server) in
    let e = same_bytes (
      sym (seal_envelope_lem xor key message shared_key signer round layer server cipher lk ls sig)
      ∙ sealed) in
    rw (
      ← e,
      drop-append_at key_size key x lk,
      lookup_key_whole key lk,
      marshal_lightning_lem (record { key = key; signed_ciphertext = x; raw = [] }) lk,
      known,
    )
  where
    same_bytes : {x y : Bytes} → ok x ≡ ok y → x ≡ y
    same_bytes e = cc
