-- ===== src/Crypto/Sealing.antt =====
-- crypto/sigcryption.go: encrypt-then-sign. The stream cipher AES-CTR, `xor_key_stream` of a 16-byte
-- key and an initial vector, and the signatures are parameters.
pub mod Opening
use bmrng.Prelude.{ℕ, ◌+◌, ◌-◌, leb, length}
use bmrng.Prelude.Int.{ℤ, to_u64}
use bmrng.Prelude.Outcome.{Outcome, ok, check, ◌>>=◌, ◌>>◌}
use bmrng.Prelude.Bytes.{Bytes, make, slice, copy_at}
use bmrng.Prelude.Pack.{put_le}
use bmrng.Crypto.Keys.{signature_size}

abbrev pub nonce_size : ℕ
nonce_size = 24

abbrev pub symmetric_key_size : ℕ
symmetric_key_size = 16

abbrev pub block_size : ℕ
block_size = 16

abbrev pub overhead : ℕ
overhead = signature_size

-- `Nonce`.
unfoldable pub nonce : ℤ → ℤ → ℤ → Outcome Bytes
nonce round layer dest_id = do
  b₁ ← put_le 8 (make nonce_size) 0 (to_u64 round)
  b₂ ← put_le 8 b₁ 8 (to_u64 layer)
  b₃ ← put_le 8 b₂ 16 (to_u64 dest_id)
  ok b₃

-- `ReadSignature`: a box shorter than a signature has a negative index, which panics.
unfoldable pub read_signature : Bytes → Outcome Bytes
read_signature box = do
  check (leb overhead (length box))
  slice box (length box - overhead) (length box)

-- `PackSignedData`: the slice with the metadata written, and the part of it that is signed.
unfoldable pub pack_signed_data : ℤ → ℤ → ℤ → Bytes → ℕ → Outcome (Bytes × Bytes)
pack_signed_data round layer server raw offset = do
  check (leb nonce_size offset)
  raw₁ ← put_le 8 raw (offset - 24) (to_u64 round)
  raw₂ ← put_le 8 raw₁ (offset - 16) (to_u64 layer)
  raw₃ ← put_le 8 raw₂ (offset - 8) (to_u64 server)
  check (leb overhead (length raw₃))
  d ← slice raw₃ (offset - 24) (length raw₃ - overhead)
  ok (raw₃, d)

module _ (xor_key_stream : Bytes → Bytes → Bytes → Bytes) where
  -- `SignedSecretSeal`, with the signature of the bytes given.
  unfoldable pub signed_secret_seal : Bytes → Bytes → Bytes → (Bytes → Bytes) → Outcome Bytes
  signed_secret_seal message n key signer = do
    aes_key ← slice key 0 symmetric_key_size
    iv ← slice n 0 block_size
    out₁ ←
        copy_at (make (length message + overhead + nonce_size)) nonce_size
          (nonce_size + length message) (xor_key_stream aes_key iv message)
    out₂ ← copy_at out₁ 0 nonce_size n
    d ← slice out₂ 0 (nonce_size + length message)
    out₃ ← copy_at out₂ (nonce_size + length message) (length out₂) (signer d)
    slice out₃ nonce_size (length out₃)

  -- `SecretOpen`.
  unfoldable pub secret_open : Bytes → Bytes → Bytes → Outcome Bytes
  secret_open box n key = do
    check (leb overhead (length box))
    aes_key ← slice key 0 symmetric_key_size
    iv ← slice n 0 block_size
    d ← slice box 0 (length box - overhead)
    ok (xor_key_stream aes_key iv d)
