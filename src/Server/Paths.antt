-- ===== src/Server/Paths.antt =====
-- server/common/commonMessages.go and marshalling.go: the messages of path establishment. Tokens and
-- their codec are parameters; `no_token` is what a token holds whose bytes were refused.
pub mod RoundTrip
use bmrng.Prelude.{ℕ, ◌+◌, length}
use bmrng.Prelude.Int.{ℤ}
use bmrng.Prelude.Outcome.{Outcome, ok, err, panic, ◌>>=◌}
use bmrng.Prelude.Bytes.{Bytes, make, slice, copy_at}
use bmrng.Crypto.Keys.{key_size, pack_key, interpret_key}
use bmrng.Crypto.Sealing.{pack_signed_data, read_signature}

-- `SignedCiphertext` is the window of `raw` behind the key and the token.
pub record PathEstablishmentEnvelope (Token : Type 0) : Type 0 where
  pub in_key : Bytes
  pub in_token : Token
  pub signed_ciphertext : Bytes
  pub raw : Bytes

-- The two envelopes are windows of `raw` behind the key and the token.
pub record PathEstablishmentInfo (Token : Type 0) : Type 0 where
  pub out_key : Bytes
  pub out_token : Token
  pub boomerang_envelope : Bytes
  pub next_envelope : Bytes
  pub raw : Bytes

module _ {Token : Type 0} (token_size : ℕ) (token_bytes : Token → Bytes) where
  unfoldable pub path_len : PathEstablishmentEnvelope Token → ℕ
  path_len p = key_size + token_size + length p.signed_ciphertext

  unfoldable pub pack_path : PathEstablishmentEnvelope Token → Bytes → Outcome Bytes
  pack_path p b = do
    b₁ ← pack_key b 0 key_size p.in_key
    b₂ ← copy_at b₁ key_size (key_size + token_size) (token_bytes p.in_token)
    copy_at b₂ (key_size + token_size) (length b₂) p.signed_ciphertext

  unfoldable pub marshal_path : PathEstablishmentEnvelope Token → Outcome Bytes
  unfolding path_len pack_path
  marshal_path p = pack_path p (make (path_len p))

  unfoldable pub marshal_info : PathEstablishmentInfo Token → Outcome Bytes
  marshal_info p = do
    let l = token_size + key_size + length p.boomerang_envelope + length p.next_envelope
    b₁ ← pack_key (make l) 0 key_size p.out_key
    b₂ ← copy_at b₁ key_size (key_size + token_size) (token_bytes p.out_token)
    b₃ ← copy_at b₂ (key_size + token_size) (length b₂) p.boomerang_envelope
    copy_at b₃ (key_size + token_size + length p.boomerang_envelope) (length b₃) p.next_envelope

module _ {Token : Type 0} (token_size : ℕ) (no_token : Token)
    (interpret_token : Bytes → Outcome Token) where
  -- `InToken.InterpretFrom` as a statement: its error is dropped.
  unfoldable pub ignore_error : Outcome Token → Outcome Token
  ignore_error (ok t) = ok t
  ignore_error (err why) = ok no_token
  ignore_error panic = panic

  unfoldable pub interpret_path : Bytes → Outcome (PathEstablishmentEnvelope Token)
  unfolding ignore_error
  interpret_path b = do
    k ← slice b 0 key_size
    in_key ← interpret_key k
    t ← slice b key_size (key_size + token_size)
    in_token ← ignore_error (interpret_token t)
    signed_ciphertext ← slice b (key_size + token_size) (length b)
    ok (record {
      in_key = in_key;
      in_token = in_token;
      signed_ciphertext = signed_ciphertext;
      raw = b;
    })

  unfoldable pub interpret_info : Bytes → ℕ → Outcome (PathEstablishmentInfo Token)
  interpret_info b boomerang_length = do
    k ← slice b 0 key_size
    out_key ← interpret_key k
    t ← slice b key_size (key_size + token_size)
    out_token ← interpret_token t
    boomerang ← slice b (key_size + token_size) (key_size + token_size + boomerang_length)
    next ← slice b (key_size + token_size + boomerang_length) (length b)
    ok (record {
      out_key = out_key;
      out_token = out_token;
      boomerang_envelope = boomerang;
      next_envelope = next;
      raw = b;
    })

  -- `GetSignedData` of an envelope: the metadata goes over the end of the token in `raw`.
  unfoldable pub path_signed_data :
      ℤ
      → ℤ
      → ℤ
      → PathEstablishmentEnvelope Token
      → Outcome (PathEstablishmentEnvelope Token × Bytes)
  path_signed_data round layer server p = do
    (raw, d) ← pack_signed_data round layer server p.raw (key_size + token_size)
    ok (record p { raw = raw }, d)

  unfoldable pub path_signature : PathEstablishmentEnvelope Token → Outcome Bytes
  path_signature p = read_signature p.signed_ciphertext

  -- `GetSignedData` of what was in the envelope. The result is a window of `raw`, which a later call
  -- writes over.
  unfoldable pub info_signed_data :
      ℤ → ℤ → ℤ → PathEstablishmentInfo Token → Outcome (PathEstablishmentInfo Token × Bytes)
  info_signed_data round layer server p = do
    (raw, d) ← pack_signed_data round layer server p.raw (key_size + token_size)
    ok (record p { raw = raw }, d)

  unfoldable pub info_signature : PathEstablishmentInfo Token → Outcome Bytes
  info_signature p = read_signature p.boomerang_envelope
