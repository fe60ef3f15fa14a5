-- ===== src/Server/Onion/Accepting.antt =====
-- The parser on an envelope that was sealed for it.
use bmrng.Prelude.{
  ℕ, ◌+◌, ◌≤◌, ◌≡◌, sym, ◌∙◌, Bool, true, false, some, ◌++◌, length, take, get_elem?, arith,
}
use bmrng.Prelude.Outcome.{ok}
use bmrng.Prelude.Bytes.{Bytes}
use bmrng.Crypto.Keys.{key_size}
use bmrng.Crypto.Sealing.{symmetric_key_size, block_size, overhead}
use bmrng.Crypto.Sealing.Opening.{
  IsStreamCipher, encrypted, nonce_bytes, length-nonce_bytes, nonce_lem, read_signature-append,
  pack_signed_data-box, secret_open_lem,
}
use bmrng.Server.Envelopes.{LightningEnvelope, lightning_signed_data, lightning_signature}
use bmrng.Server.Envelopes.RoundTrip.{interpret_lightning-append}
use bmrng.Server.Envelopes.Peeling.{seal_envelope, box, seal_envelope_lem}
use bmrng.Server.KeyTable.{BootstrapKey, find_key, set_used}
use bmrng.Server.Onion.{
  OnionParser, nonce_layer, signature_valid, decryption_key, open_with, use_key, parse_with,
  authenticated_onion_parse,
}

module _ {Expanded : Type 0} (xor_key_stream : Bytes → Bytes → Bytes → Bytes)
    (verify : Bytes → Bytes → Bytes → Bool)
    (verify_expanded : Expanded → Bytes → Bytes → Bool) where
  open_with-box :
      (o : OnionParser Expanded) (k : BootstrapKey Expanded) (key message : Bytes)
      (signer : Bytes → Bytes)
      → IsStreamCipher xor_key_stream
      → length key ≡ key_size
      → symmetric_key_size
        ≤ length (decryption_key xor_key_stream verify verify_expanded k o.reverse)
      → ((d : Bytes) → length (signer d) ≡ overhead)
      → ((d : Bytes)
          → signature_valid xor_key_stream verify verify_expanded k o.reverse d (signer d) ≡ true)
      → let shared_key = decryption_key xor_key_stream verify verify_expanded k o.reverse in
        let sealed =
          box xor_key_stream message shared_key signer
            (nonce_bytes o.c.round (nonce_layer o) o.c.my_id) in
        open_with xor_key_stream verify verify_expanded o
          (record { key = key; signed_ciphertext = sealed; raw = key ++ sealed })
          k
        ≡ ok message
  unfolding open_with lightning_signed_data lightning_signature box encrypted
  open_with-box o k key message signer cipher lk ls sig valid =
      let shared_key = decryption_key xor_key_stream verify verify_expanded k o.reverse in
      let n = nonce_bytes o.c.round (nonce_layer o) o.c.my_id in
      let ln = length-nonce_bytes o.c.round (nonce_layer o) o.c.my_id in
      let c = encrypted xor_key_stream shared_key n message in
      let s = signer (n ++ c) in
      rw (
        nonce_lem o.c.round (nonce_layer o) o.c.my_id,
        ← lk,
        pack_signed_data-box o.c.round (nonce_layer o) o.c.my_id key c s (omega arith) (sig _),
        read_signature-append c s (sig _),
        valid (n ++ c),
        secret_open_lem xor_key_stream c s n shared_key ln ls (sig _),
        cipher.involutive (take symmetric_key_size shared_key) (take block_size n) message,
      )

  parse_with-box :
      (o : OnionParser Expanded) (lm : LightningEnvelope) (i : ℕ) (k : BootstrapKey Expanded)
      (message : Bytes)
      → get_elem? o.key_table.heap i ≡ some k
      → k.used ≡ false
      → open_with xor_key_stream verify verify_expanded o lm k ≡ ok message
      → parse_with xor_key_stream verify verify_expanded o lm (some i) ≡ (
        record o {
          count = o.count + 1;
          key_table = record o.key_table { heap = set_used i true o.key_table.heap };
        },
        ok (message, i),
      )
  unfolding parse_with use_key
  parse_with-box o lm i k message found fresh opened = rw (parse_with, found, opened, fresh)

  -- A client's envelope is accepted. If the envelope was sealed for the parser's round, layer and
  -- server under a lookup key that the table has, with the shared key of the record found and by a
  -- signer whose signatures that record's key verifies, and the record is not used yet, then the
  -- parser returns the message inside and the record, and what has changed is that the record is used
  -- and the count is one higher.
  pub authenticated_onion_parse-seal_envelope :
      (o : OnionParser Expanded) (i : ℕ) (k : BootstrapKey Expanded) (key message b : Bytes)
      (signer : Bytes → Bytes)
      → IsStreamCipher xor_key_stream
      → length key ≡ key_size
      → symmetric_key_size
        ≤ length (decryption_key xor_key_stream verify verify_expanded k o.reverse)
      → ((d : Bytes) → length (signer d) ≡ overhead)
      → ((d : Bytes)
          → signature_valid xor_key_stream verify verify_expanded k o.reverse d (signer d) ≡ true)
      → find_key o.key_table key o.reverse ≡ some i
      → get_elem? o.key_table.heap i ≡ some k
      → k.used ≡ false
      → seal_envelope xor_key_stream key message
          (decryption_key xor_key_stream verify verify_expanded k o.reverse)
          signer
          o.c.round
          (nonce_layer o)
          o.c.my_id
        ≡ ok b
      → authenticated_onion_parse xor_key_stream verify verify_expanded o b ≡ (
        record o {
          count = o.count + 1;
          key_table = record o.key_table { heap = set_used i true o.key_table.heap };
        },
        ok (message, i),
      )
  unfolding authenticated_onion_parse
  authenticated_onion_parse-seal_envelope o i k key message b signer cipher lk ls sig valid known
        found fresh sealed =
      let shared_key = decryption_key xor_key_stream verify verify_expanded k o.reverse in
      let x =
        box xor_key_stream message shared_key signer
          (nonce_bytes o.c.round (nonce_layer o) o.c.my_id) in
      let e = same_bytes (
        sym (
          seal_envelope_lem xor_key_stream key message shared_key signer o.c.round (nonce_layer o)
            o.c.my_id cipher lk ls sig)
        ∙ sealed) in
      rw (← e, interpret_lightning-append key x lk, known)
        (parse_with-box o (record { key = key; signed_ciphertext = x; raw = key ++ x }) i k message
          found fresh (open_with-box o k key message signer cipher lk ls sig valid))
    where
      same_bytes : {x y : Bytes} → ok x ≡ ok y → x ≡ y
      same_bytes e = cc
