-- ===== src/Server/Client/Sizes.antt =====
-- The sizes of a client's messages, against the table of server/prepareMessages/lengths.go.
use bmrng.Prelude.{
  ℕ, zero, suc, ◌+◌, ◌-◌, ◌*◌, ◌≤◌, ◌≡◌, refl, ap, ◌∙◌, some, List, [], ◌∷◌, ◌++◌, length,
  length-append, length-drop, get_elem?, drop, take, arith,
}
use bmrng.Prelude.Int.{ℤ, pos}
use bmrng.Prelude.Outcome.{ok, ◌>>=◌}
use bmrng.Prelude.Bytes.{Bytes}
use bmrng.Crypto.Keys.{key_size, signature_size}
use bmrng.Crypto.Sealing.{symmetric_key_size, block_size, overhead}
use bmrng.Crypto.Sealing.Opening.{IsStreamCipher, encrypted, nonce_bytes}
use bmrng.Server.Envelopes.{marshal_lightning}
use bmrng.Server.Envelopes.Peeling.{box}
use bmrng.Server.Envelopes.RoundTrip.{marshal_lightning_lem}
use bmrng.Server.Lengths.{lightning_message_lengths}
use bmrng.Server.Lengths.Closed.{lightning_message_lengths_lem}
use bmrng.Server.Client.{PathKey, onion_encrypt, lightning_submission}
use bmrng.Server.Client.Relaying.{encrypt_lem}
use bmrng.Server.Client.Delivering.{submission}

-- A client's keys for its layers: they sign with whole signatures, and hold a symmetric key.
abbrev pub AreWhole : List PathKey → Type 0
AreWhole [] = Unit
AreWhole (k ∷ ks) =
    (symmetric_key_size ≤ length k.shared)
    × ((d : Bytes) → length (k.signing_key d) ≡ overhead)
    × AreWhole ks

AreWhole-drop : (l : ℕ) (ks : List PathKey) → AreWhole ks → AreWhole (drop l ks)
AreWhole-drop zero ks h = h
AreWhole-drop (suc l) [] h = tt
AreWhole-drop (suc l) (k ∷ ks) (long, signs, h) = AreWhole-drop l ks h

module _ (xor_key_stream : Bytes → Bytes → Bytes → Bytes) where
  -- A box is a signature longer than its message.
  length-box :
      (message shared : Bytes) (signer : Bytes → Bytes) (n : Bytes)
      → IsStreamCipher xor_key_stream
      → ((d : Bytes) → length (signer d) ≡ overhead)
      → length (box xor_key_stream message shared signer n) ≡ length message + overhead
  unfolding box encrypted
  length-box message shared signer n cipher signs =
      let c = encrypted xor_key_stream shared n message in
      length-append c (signer (n ++ c))
      ∙ omega (
        arith,
        signs (n ++ c),
        cipher.same_length (take symmetric_key_size shared) (take block_size n) message,
      )

  -- Each layer of an onion adds a signature.
  onion_encrypt-length :
      (round : ℤ) (layer : ℕ) (keys : List PathKey) (message : Bytes)
      → IsStreamCipher xor_key_stream
      → AreWhole keys
      → (c : Bytes) × (onion_encrypt xor_key_stream round layer keys message ≡ ok c)
        × (length c ≡ length message + length keys * overhead)
  unfolding onion_encrypt
  onion_encrypt-length round layer [] message cipher h = (message, refl, omega arith)
  onion_encrypt-length round layer (key ∷ keys) message cipher (long, signs, h) =
      let (inner, e, l) = onion_encrypt-length round (layer + 1) keys message cipher h in
      let n = nonce_bytes round (pos layer) key.server_id in
      (
        box xor_key_stream inner key.shared key.signing_key n,
        rw (
          e,
          encrypt_lem xor_key_stream inner key round (pos layer) key.server_id cipher long signs,
        ),
        omega (arith, l, length-box inner key.shared key.signing_key n cipher signs),
      )

module _ (xor_key_stream : Bytes → Bytes → Bytes → Bytes) where
  -- The servers expect what the client sends. With keys for all layers, and a signing key behind the
  -- last, a client's submission succeeds and the envelope has the length of the layer 0 in the table
  -- of lightning messages for its message; and for each layer, and behind the last, the rest of the
  -- onion from that layer on, with a key in front, has the length of that layer in the table. Keys and
  -- signatures are whole, and the stream cipher keeps lengths.
  pub lightning_message_lengths-lightning_submission :
      (round : ℤ) (num_layers l : ℕ) (routing_key message : Bytes) (path_keys layers : List PathKey)
      (final_key : PathKey)
      → IsStreamCipher xor_key_stream
      → AreWhole layers
      → length layers ≡ num_layers
      → l ≤ num_layers
      → length routing_key ≡ key_size
      → length (final_key.signing_key message) ≡ signature_size
      → get_elem? path_keys num_layers ≡ some final_key
      → (table : List ℕ) × (b : Bytes) × (c : Bytes) × (lightning_message_lengths num_layers
            (length message)
          ≡ ok table)
        × ((lightning_submission xor_key_stream round num_layers routing_key path_keys layers
                message
              >>= marshal_lightning)
            ≡ ok b)
        × (get_elem? table 0 ≡ some (length b))
        × (onion_encrypt xor_key_stream round l
              (drop l layers)
              (final_key.signing_key message ++ message)
            ≡ ok c)
        × (get_elem? table l ≡ some (key_size + length c))
  lightning_message_lengths-lightning_submission round num_layers l routing_key message path_keys
        layers final_key cipher whole count below lk ls known =
      let inner = final_key.signing_key message ++ message in
      let size = length-append (final_key.signing_key message) message in
      let (table, made, closed) = lightning_message_lengths_lem num_layers (length message) in
      let (c₀, e₀, l₀) = onion_encrypt-length xor_key_stream round 0 layers inner cipher whole in
      let (c, e, lc) =
        onion_encrypt-length xor_key_stream round l (drop l layers) inner cipher
          (AreWhole-drop l layers whole) in
      let left = length-drop l layers in
      let many : length (drop l layers) ≡ num_layers - l = left ∙ ap (λ n. n - l) count in
      let first = ap (λ n. n * overhead) count in
      let rest = ap (λ n. n * overhead) many in
      (
        table,
        routing_key ++ c₀,
        c,
        made,
        rw
            (submission xor_key_stream round num_layers routing_key message c₀ path_keys layers
              final_key ls known e₀)
            (marshal_lightning_lem (record { key = routing_key; signed_ciphertext = c₀; raw = [] })
              lk),
        closed 0 (omega arith)
            ∙ ap some (omega (arith, length-append routing_key c₀, lk, l₀, size, ls, first)),
        e,
        closed l below ∙ ap some (omega (arith, lc, size, ls, rest)),
      )
