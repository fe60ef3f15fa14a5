-- ===== src/Server/Client/Relaying.antt =====
-- A lightning message through all its layers: what each server peels and sends on.
use bmrng.Prelude.{
  ℕ, zero, suc, ◌+◌, ◌≤◌, ◌≡◌, refl, ap, Bool, true, false, Option, none, some, List, [], ◌∷◌, ◌++◌,
  length, get_elem?, arith,
}
use bmrng.Prelude.Int.{ℤ, pos}
use bmrng.Prelude.Outcome.{Outcome, ok, panic, ◌>>=◌}
use bmrng.Prelude.Bytes.{Bytes}
use bmrng.Crypto.Keys.{key_size}
use bmrng.Crypto.Sealing.{symmetric_key_size, overhead}
use bmrng.Crypto.Sealing.Opening.{
  IsStreamCipher, nonce_bytes, length-nonce_bytes, nonce_lem, signed_secret_seal_lem,
}
use bmrng.Server.Envelopes.RoundTrip.{marshal_lightning_lem}
use bmrng.Server.Envelopes.Peeling.{box, seal_envelope, seal_envelope_lem}
use bmrng.Server.KeyTable.{BootstrapKey, find_key, set_used}
use bmrng.Server.Onion.{
  OnionParser, nonce_layer, signature_valid, decryption_key, authenticated_onion_parse,
  outgoing_envelope,
}
use bmrng.Server.Onion.Accepting.{authenticated_onion_parse-seal_envelope}
use bmrng.Server.Onion.Routing.{lookup_key_whole}
use bmrng.Server.Client.{PathKey, encrypt, onion_encrypt}

with_use : {Expanded : Type 0} → Option (BootstrapKey Expanded) → Option (BootstrapKey Expanded)
with_use none = none
with_use (some k) = some (record k { used = true })

get_elem?-set_used :
    {Expanded : Type 0} (i : ℕ) (heap : List (BootstrapKey Expanded)) (k : BootstrapKey Expanded)
    → get_elem? heap i ≡ some k
    → get_elem? (set_used i true heap) i ≡ some (record k { used = true })
unfolding set_used with_use
get_elem?-set_used zero [] k h = absurd (ground (arith, h))
get_elem?-set_used zero (j ∷ heap) k h = ap with_use h
get_elem?-set_used (suc i) [] k h = absurd (ground (arith, h))
get_elem?-set_used (suc i) (j ∷ heap) k h = get_elem?-set_used i heap k h

module _ (xor_key_stream : Bytes → Bytes → Bytes → Bytes) where
  pub encrypt_lem :
      (message : Bytes) (key : PathKey) (round layer server : ℤ)
      → IsStreamCipher xor_key_stream
      → symmetric_key_size ≤ length key.shared
      → ((d : Bytes) → length (key.signing_key d) ≡ overhead)
      → encrypt xor_key_stream message key round layer server false
        ≡ ok
            (box xor_key_stream message key.shared key.signing_key (nonce_bytes round layer server))
  unfolding encrypt box
  encrypt_lem message key round layer server cipher ls sig = rw (
    nonce_lem round layer server,
    signed_secret_seal_lem xor_key_stream message (nonce_bytes round layer server) key.shared
        key.signing_key cipher (length-nonce_bytes round layer server) ls (sig _),
  )

module _ {Expanded : Type 0} (xor_key_stream : Bytes → Bytes → Bytes → Bytes)
    (verify : Bytes → Bytes → Bytes → Bool)
    (verify_expanded : Expanded → Bytes → Bytes → Bool) where
  -- With the record that a parser found: the envelope that its router writes.
  unfoldable pub send_found : Bytes → Option (BootstrapKey Expanded) → Outcome Bytes
  send_found decrypted none = panic
  send_found decrypted (some k) = outgoing_envelope decrypted k false

  -- What a server makes of the bytes of a message: it parses them, and packs what was inside for the
  -- next server.
  unfoldable pub relay_one : OnionParser Expanded → Bytes → Outcome Bytes
  unfolding send_found
  relay_one o b =
      (let (o', r) = authenticated_onion_parse xor_key_stream verify verify_expanded o b in
        r >>= λ (decrypted, i). send_found decrypted (get_elem? o'.key_table.heap i))

  -- The servers of a path, one after the other.
  unfoldable pub relay : List (OnionParser Expanded) → Bytes → Outcome Bytes
  unfolding relay_one
  relay [] b = ok b
  relay (o ∷ os) b = relay_one o b >>= relay os

  -- A server that a path has been set up through: the parser there, and its record of the path, not
  -- used yet, that the key `key` leads to and that agrees with the client's keys for the layer.
  pub record IsHop (round : ℤ) (layer : ℕ) (key : Bytes) (o : OnionParser Expanded) (place : ℕ)
      (k : BootstrapKey Expanded) (path_key : PathKey) : Type 0 where
    pub same_round : o.c.round ≡ round
    pub same_layer : o.c.layer ≡ pos layer
    pub same_server : o.c.my_id ≡ path_key.server_id
    pub forward : o.reverse ≡ false
    pub whole_key : length key ≡ key_size
    pub whole_outgoing : length k.outgoing_verification_key ≡ key_size
    pub known : find_key o.key_table key false ≡ some place
    pub found : get_elem? o.key_table.heap place ≡ some k
    pub fresh : k.used ≡ false
    pub same_shared : k.shared_key ≡ path_key.shared
    pub long_shared : symmetric_key_size ≤ length path_key.shared
    pub signs : (d : Bytes) → length (path_key.signing_key d) ≡ overhead
    pub verifies :
        (d : Bytes)
        → signature_valid xor_key_stream verify verify_expanded k false d (path_key.signing_key d)
          ≡ true

  -- The parsers and the client's keys of a path, from a layer and the key that it is entered with, to
  -- the key behind it.
  pub data IsPath (round : ℤ)
      : ℕ → Bytes → List (OnionParser Expanded) → List PathKey → Bytes → Type 0 where
    done : {layer : ℕ} {key : Bytes} → IsPath round layer key [] [] key
    hop :
        {layer : ℕ} {key last : Bytes} {os : List (OnionParser Expanded)} {keys : List PathKey}
        (o : OnionParser Expanded) (place : ℕ) (k : BootstrapKey Expanded) (path_key : PathKey)
        → IsHop round layer key o place k path_key
        → IsPath round (layer + 1) k.outgoing_verification_key os keys last
        → IsPath round layer key (o ∷ os) (path_key ∷ keys) last

  long_key :
      {round : ℤ} {layer : ℕ} {key : Bytes} {o : OnionParser Expanded} {place : ℕ}
      {k : BootstrapKey Expanded} {path_key : PathKey}
      → IsHop round layer key o place k path_key
      → symmetric_key_size
        ≤ length (decryption_key xor_key_stream verify verify_expanded k o.reverse)
  unfolding decryption_key
  long_key h = rw (h.forward, h.same_shared) h.long_shared

  sealed_for :
      {round : ℤ} {layer : ℕ} {key : Bytes} {o : OnionParser Expanded} {place : ℕ}
      {k : BootstrapKey Expanded} {path_key : PathKey} (inner : Bytes)
      → IsStreamCipher xor_key_stream
      → IsHop round layer key o place k path_key
      → seal_envelope xor_key_stream key inner
          (decryption_key xor_key_stream verify verify_expanded k o.reverse)
          path_key.signing_key
          o.c.round
          (nonce_layer o)
          o.c.my_id
        ≡ ok (
            key
            ++ box xor_key_stream inner path_key.shared path_key.signing_key
                (nonce_bytes round (pos layer) path_key.server_id))
  unfolding decryption_key nonce_layer
  sealed_for {round} {layer} {key} {o} {place} {k} {path_key} inner cipher h =
      rw (h.forward, h.same_shared, h.same_round, h.same_layer, h.same_server)
        (seal_envelope_lem xor_key_stream key inner path_key.shared path_key.signing_key round
          (pos layer) path_key.server_id cipher h.whole_key h.long_shared h.signs)

  relay_one-box :
      (round : ℤ) (layer : ℕ) (key inner : Bytes) (o : OnionParser Expanded) (place : ℕ)
      (k : BootstrapKey Expanded) (path_key : PathKey)
      → IsStreamCipher xor_key_stream
      → IsHop round layer key o place k path_key
      → relay_one o (
          key
          ++ box xor_key_stream inner path_key.shared path_key.signing_key
              (nonce_bytes round (pos layer) path_key.server_id))
        ≡ ok (k.outgoing_verification_key ++ inner)
  unfolding relay_one send_found outgoing_envelope
  relay_one-box round layer key inner o place k path_key cipher h =
      let b =
        key
        ++ box xor_key_stream inner path_key.shared path_key.signing_key
            (nonce_bytes round (pos layer) path_key.server_id) in
      rw
        (
          authenticated_onion_parse-seal_envelope xor_key_stream verify verify_expanded o place k
              key inner b path_key.signing_key cipher h.whole_key (long_key h) h.signs
              (λ d. rw h.forward (h.verifies d)) (rw h.forward h.known) h.found h.fresh
              (sealed_for inner cipher h),
          get_elem?-set_used place o.key_table.heap k h.found,
          lookup_key_whole k.outgoing_verification_key h.whole_outgoing,
        )
        (marshal_lightning_lem
          (record { key = k.outgoing_verification_key; signed_ciphertext = inner; raw = [] })
          h.whole_outgoing)

  pub sent_and_relayed :
      (round : ℤ) (layer : ℕ) (key last message : Bytes) (os : List (OnionParser Expanded))
      (keys : List PathKey)
      → IsStreamCipher xor_key_stream
      → IsPath round layer key os keys last
      → (c : Bytes) × (onion_encrypt xor_key_stream round layer keys message ≡ ok c)
        × (relay os (key ++ c) ≡ ok (last ++ message))
  unfolding onion_encrypt relay
  sent_and_relayed round layer key last message _ _ cipher done = (message, refl, refl)
  sent_and_relayed round layer key last message _ _ cipher
        (hop {os} {keys} o place k path_key h path) =
      let (inner, encrypted, relayed) =
        sent_and_relayed round (layer + 1) k.outgoing_verification_key last message os keys cipher
          path in
      (
        box xor_key_stream inner path_key.shared path_key.signing_key
            (nonce_bytes round (pos layer) path_key.server_id),
        rw encrypted (
            encrypt_lem xor_key_stream inner path_key round (pos layer) path_key.server_id cipher
              h.long_shared h.signs),
        rw (relay_one-box round layer key inner o place k path_key cipher h) relayed,
      )

  -- A lightning message gets through. If a client has encrypted a message in layers with the keys of a
  -- path, in a round, and each server of the path has the path's record, not used, then the servers of
  -- the path, in order, turn the key that the path is entered with and the client's ciphertext into
  -- the key behind the path and the client's message: no call on the way fails.
  pub relay-onion_encrypt :
      (round : ℤ) (layer : ℕ) (key last message : Bytes) (os : List (OnionParser Expanded))
      (keys : List PathKey)
      → IsStreamCipher xor_key_stream
      → IsPath round layer key os keys last
      → (onion_encrypt xor_key_stream round layer keys message >>= λ c. relay os (key ++ c))
        ≡ ok (last ++ message)
  relay-onion_encrypt round layer key last message os keys cipher path =
      let (c, encrypted, relayed) =
        sent_and_relayed round layer key last message os keys cipher path in
      rw encrypted relayed
