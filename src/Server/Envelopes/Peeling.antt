-- ===== src/Server/Envelopes/Peeling.antt =====
-- What the server checks and decrypts of an envelope that a client sealed for it.
use bmrng.Prelude.{◌≤◌, ◌≡◌, ◌++◌, length, take, arith}
use bmrng.Prelude.Int.{ℤ}
use bmrng.Prelude.Outcome.{Outcome, ok, ◌>>=◌}
use bmrng.Prelude.Bytes.{Bytes}
use bmrng.Crypto.Keys.{key_size}
use bmrng.Crypto.Sealing.{
  symmetric_key_size, block_size, overhead, nonce, signed_secret_seal, secret_open,
}
use bmrng.Crypto.Sealing.Opening.{
  IsStreamCipher, encrypted, nonce_bytes, length-nonce_bytes, nonce_lem, read_signature-append,
  pack_signed_data-box, signed_secret_seal_lem, secret_open_lem,
}
use bmrng.Server.Envelopes.{
  interpret_lightning, marshal_lightning, lightning_signed_data, lightning_signature,
}
use bmrng.Server.Envelopes.RoundTrip.{marshal_lightning_lem, interpret_lightning-append}

module _ (xor_key_stream : Bytes → Bytes → Bytes → Bytes) where
  -- The client's side: the message sealed for the server, in an envelope under the lookup key.
  unfoldable pub seal_envelope : Bytes → Bytes → Bytes → (Bytes → Bytes) → ℤ → ℤ → ℤ → Outcome Bytes
  seal_envelope lookup_key message shared_key signer round layer server = do
    n ← nonce round layer server
    box ← signed_secret_seal xor_key_stream message n shared_key signer
    marshal_lightning (record { key = lookup_key; signed_ciphertext = box; raw = box })

  -- The server's side, without its table: the key, the bytes signed, the signature and the plaintext.
  unfoldable pub peel : Bytes → Bytes → ℤ → ℤ → ℤ → Outcome (Bytes × Bytes × Bytes × Bytes)
  peel b shared_key round layer server = do
    n ← nonce round layer server
    l ← interpret_lightning b
    (l', d) ← lightning_signed_data round layer server l
    s ← lightning_signature l'
    m ← secret_open xor_key_stream l'.signed_ciphertext n shared_key
    ok (l'.key, d, s, m)

  unfoldable pub box : Bytes → Bytes → (Bytes → Bytes) → Bytes → Bytes
  box message shared_key signer n =
      encrypted xor_key_stream shared_key n message
      ++ signer (n ++ encrypted xor_key_stream shared_key n message)

  pub seal_envelope_lem :
      (lookup_key message shared_key : Bytes) (signer : Bytes → Bytes) (round layer server : ℤ)
      → IsStreamCipher xor_key_stream
      → length lookup_key ≡ key_size
      → symmetric_key_size ≤ length shared_key
      → ((d : Bytes) → length (signer d) ≡ overhead)
      → seal_envelope lookup_key message shared_key signer round layer server
        ≡ ok (lookup_key ++ box message shared_key signer (nonce_bytes round layer server))
  unfolding seal_envelope box
  seal_envelope_lem lookup_key message shared_key signer round layer server cipher lk ls sig =
      let n = nonce_bytes round layer server in
      let b = box message shared_key signer n in
      rw
        (
          nonce_lem round layer server,
          signed_secret_seal_lem xor_key_stream message n shared_key signer cipher
              (length-nonce_bytes round layer server) ls (sig _),
        )
        (marshal_lightning_lem (record { key = lookup_key; signed_ciphertext = b; raw = b }) lk)

  peel_lem :
      (lookup_key message shared_key : Bytes) (signer : Bytes → Bytes) (round layer server : ℤ)
      → IsStreamCipher xor_key_stream
      → length lookup_key ≡ key_size
      → symmetric_key_size ≤ length shared_key
      → ((d : Bytes) → length (signer d) ≡ overhead)
      → peel
          (lookup_key ++ box message shared_key signer (nonce_bytes round layer server))
          shared_key
          round
          layer
          server
        ≡ (let d =
              nonce_bytes round layer server
              ++ encrypted xor_key_stream shared_key (nonce_bytes round layer server) message in
            ok (lookup_key, d, signer d, message))
  unfolding peel box lightning_signed_data lightning_signature encrypted
  peel_lem lookup_key message shared_key signer round layer server cipher lk ls sig =
      let n = nonce_bytes round layer server in
      let ln = length-nonce_bytes round layer server in
      let c = encrypted xor_key_stream shared_key n message in
      let s = signer (n ++ c) in
      rw (
        nonce_lem round layer server,
        interpret_lightning-append lookup_key (c ++ s) lk,
        ← lk,
        pack_signed_data-box round layer server lookup_key c s (omega arith) (sig _),
        read_signature-append c s (sig _),
        secret_open_lem xor_key_stream c s n shared_key ln ls (sig _),
        cipher.involutive (take symmetric_key_size shared_key) (take block_size n) message,
      )

  -- A message sealed in an envelope for a round, a layer and a server is found by that server under
  -- its lookup key, the bytes that the server checks the signature on are the very bytes that the
  -- client signed, the signature is the client's, and the message decrypts, if the shared key has at
  -- least 16 bytes and signatures have 64.
  pub peel-seal_envelope :
      (lookup_key message shared_key : Bytes) (signer : Bytes → Bytes) (round layer server : ℤ)
      → IsStreamCipher xor_key_stream
      → length lookup_key ≡ key_size
      → symmetric_key_size ≤ length shared_key
      → ((d : Bytes) → length (signer d) ≡ overhead)
      → (seal_envelope lookup_key message shared_key signer round layer server >>= λ b.
          peel b shared_key round layer server)
        ≡ (let d =
              nonce_bytes round layer server
              ++ encrypted xor_key_stream shared_key (nonce_bytes round layer server) message in
            ok (lookup_key, d, signer d, message))
  unfolding seal_envelope peel
  peel-seal_envelope lookup_key message shared_key signer round layer server cipher lk ls sig = rw (
    seal_envelope_lem lookup_key message shared_key signer round layer server cipher lk ls sig,
    peel_lem lookup_key message shared_key signer round layer server cipher lk ls sig,
  )
