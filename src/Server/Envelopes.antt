-- ===== src/Server/Envelopes.antt =====
-- server/common/commonMessages.go and marshalling.go: the envelope of a lightning message and the
-- final message in it. A `Marshal` that panics does so on the keys and signatures that it is given.
pub mod RoundTrip
pub mod Lengths
pub mod Peeling
pub mod Examples
use bmrng.Prelude.{ℕ, ◌+◌, Bool, ◌==◌, ltb, if◌then◌else◌, length}
use bmrng.Prelude.Int.{ℤ, to_u32}
use bmrng.Prelude.Assoc.{bytes_beq}
use bmrng.Prelude.Outcome.{Outcome, ok, err, check, require, length_invalid, ◌>>=◌, ◌>>◌}
use bmrng.Prelude.Bytes.{Bytes, make, slice, copy_at}
use bmrng.Prelude.Pack.{put_le}
use bmrng.Crypto.Keys.{key_size, signature_size, pack_key, interpret_key}
use bmrng.Crypto.Sealing.{pack_signed_data, read_signature}

-- `SignedCiphertext` is the window of `raw` behind the key; the key is a copy.
pub record LightningEnvelope : Type 0 where
  pub key : Bytes
  pub signed_ciphertext : Bytes
  pub raw : Bytes

pub record FinalLightningMessage : Type 0 where
  pub anonymous_verification_key : Bytes
  pub signature : Bytes
  pub message : Bytes

unfoldable pub lightning_len : LightningEnvelope → ℕ
lightning_len l = key_size + length l.signed_ciphertext

unfoldable pub interpret_lightning : Bytes → Outcome LightningEnvelope
interpret_lightning b = do
  key ← slice b 0 key_size
  signed_ciphertext ← slice b key_size (length b)
  ok (record { key = key; signed_ciphertext = signed_ciphertext; raw = b })

unfoldable pub pack_lightning : LightningEnvelope → Bytes → Outcome Bytes
unfolding lightning_len
pack_lightning l b = do
  check (length b == lightning_len l)
  b₁ ← copy_at b 0 key_size l.key
  b₂ ← copy_at b₁ key_size (length b₁) l.signed_ciphertext
  ok b₂

unfoldable pub marshal_lightning : LightningEnvelope → Outcome Bytes
marshal_lightning l = pack_lightning l (make (lightning_len l))

-- `GetSignedData`: the metadata goes over the key in `raw`, and what is signed is returned.
unfoldable pub lightning_signed_data :
    ℤ → ℤ → ℤ → LightningEnvelope → Outcome (LightningEnvelope × Bytes)
lightning_signed_data round layer server l = do
  (raw, d) ← pack_signed_data round layer server l.raw key_size
  ok (record l { raw = raw }, d)

unfoldable pub lightning_signature : LightningEnvelope → Outcome Bytes
lightning_signature l = read_signature l.signed_ciphertext

-- `IsDummy`: the key is all zeros.
unfoldable pub is_dummy : LightningEnvelope → Bool
is_dummy l = bytes_beq l.key (make key_size)

-- `TokenContent`: the bytes that a token signs.
unfoldable pub token_content : Bytes → ℤ → ℤ → ℤ → Outcome Bytes
token_content key round layer server = do
  b₁ ← put_le 4 (make (12 + key_size)) 0 (to_u32 round)
  b₂ ← put_le 4 b₁ 4 (to_u32 layer)
  b₃ ← put_le 4 b₂ 8 (to_u32 server)
  b₄ ← pack_key b₃ 12 (12 + key_size) key
  ok b₄

abbrev pub final_message_base_length : ℕ
final_message_base_length = signature_size

unfoldable pub final_len : FinalLightningMessage → ℕ
final_len l = key_size + signature_size + length l.message

unfoldable pub pack_final : FinalLightningMessage → Bytes → Outcome Bytes
unfolding final_len
pack_final l b = do
  check (length b == final_len l)
  b₁ ← pack_key b 0 key_size l.anonymous_verification_key
  b₂ ← copy_at b₁ key_size (key_size + signature_size) l.signature
  b₃ ← copy_at b₂ (key_size + signature_size) (length b₂) l.message
  ok b₃

unfoldable pub interpret_final : Bytes → Outcome FinalLightningMessage
interpret_final b = if ltb (length b) final_message_base_length then err length_invalid else do
  k ← slice b 0 key_size
  key ← interpret_key k
  signature ← slice b key_size (key_size + signature_size)
  message ← slice b (key_size + signature_size) (length b)
  ok (record { anonymous_verification_key = key; signature = signature; message = message })

unfoldable pub marshal_final : FinalLightningMessage → Outcome Bytes
marshal_final l = pack_final l (make (final_len l))

-- `MarshalI`: the message without its key.
unfoldable pub marshal_without_key : FinalLightningMessage → Outcome Bytes
marshal_without_key l = do
  b₁ ← copy_at (make (signature_size + length l.message)) 0 signature_size l.signature
  b₂ ← copy_at b₁ signature_size (length b₁) l.message
  ok b₂

-- `MarshalSigned`: the bytes that the anonymous key signs.
unfoldable pub marshal_signed : FinalLightningMessage → Bytes
marshal_signed l = l.message
