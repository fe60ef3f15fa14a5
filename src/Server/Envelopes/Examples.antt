-- ===== src/Server/Envelopes/Examples.antt =====
-- A final message, and an envelope sealed with a key stream of one byte.
use bmrng.Prelude.{
  ℕ, ◌+◌, ◌-◌, ◌≤◌, ◌<◌, ◌≡◌, refl, ◌↔◌, [], ◌∷◌, length, map, arith, leb, ap₂, if◌then◌else◌,
}
use bmrng.Prelude.Outcome.{panic, ◌>>=◌, err, length_invalid}
use bmrng.Prelude.Bytes.{Bytes, make}
use bmrng.Crypto.Keys.{key_size, signature_size}
use bmrng.Crypto.Sealing.Opening.{IsStreamCipher}
use bmrng.Server.Envelopes.{
  LightningEnvelope, FinalLightningMessage, marshal_lightning, interpret_final, marshal_final,
  marshal_without_key,
}
use bmrng.Server.Envelopes.RoundTrip.{marshal_lightning-marshal_without_key}
use bmrng.Server.Envelopes.Lengths.{interpret_final-panic}

abbrev letter : FinalLightningMessage
letter = record {
  anonymous_verification_key = 9 ∷ make 31;
  signature = 5 ∷ make 63;
  message = 1 ∷ 2 ∷ [];
}

abbrev envelope : LightningEnvelope
envelope = record { key = 9 ∷ make 31; signed_ciphertext = 1 ∷ 2 ∷ 3 ∷ []; raw = [] }

marshal_lightning-marshal_without_key_example :
    (marshal_without_key letter >>= λ c.
    marshal_lightning (record { key = 9 ∷ make 31; signed_ciphertext = c; raw = [] }))
    ≡ marshal_final letter
marshal_lightning-marshal_without_key_example =
    marshal_lightning-marshal_without_key letter refl refl

interpret_final-panic_example :
    ((interpret_final (make 70) ≡ panic)
      ↔ ((signature_size ≤ length (make 70)) × (length (make 70) < key_size + signature_size)))
    × ((interpret_final (make 70) ≡ err length_invalid) ↔ (length (make 70) < signature_size))
interpret_final-panic_example = interpret_final-panic (make 70)

-- The complement of each byte: a key stream of ones.
complement : ℕ → ℕ
complement b = if leb b 255 then 255 - b else b

twice : (b : ℕ) → complement (complement b) ≡ b
unfolding complement
twice b = ground arith

abbrev flip : Bytes → Bytes → Bytes → Bytes
flip key iv m = map complement m

flip-IsStreamCipher : IsStreamCipher flip
flip-IsStreamCipher = record { same_length = λ key iv m. same m; involutive = λ key iv m. back m }
  where
    same : (m : Bytes) → length (map complement m) ≡ length m
    same [] = refl
    same (b ∷ m) = omega (arith, same m)

    back : (m : Bytes) → map complement (map complement m) ≡ m
    back [] = refl
    back (b ∷ m) = ap₂ ◌∷◌ (twice b) (back m)

abbrev checksum : Bytes → Bytes
checksum b = length b ∷ make 63
