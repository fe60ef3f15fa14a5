-- ===== src/Crypto/Keys.antt =====
-- crypto/signatures.go: the encodings of verification keys and signatures, and the key that a table
-- finds a verification key under.
use bmrng.Prelude.{ℕ, ◌≡◌, refl, ◌-◌, ◌==◌, length}
use bmrng.Prelude.Outcome.{Outcome, ok, check, require, length_invalid, ◌>>◌}
use bmrng.Prelude.Bytes.{Bytes, make, copy_at}

abbrev pub signature_size : ℕ
signature_size = 64

abbrev pub key_size : ℕ
key_size = 32

-- `VerificationKey.PackTo(b[lo:hi])`.
unfoldable pub pack_key : Bytes → ℕ → ℕ → Bytes → Outcome Bytes
pack_key b lo hi key = check (hi - lo == key_size) >> copy_at b lo hi key

-- `VerificationKey.InterpretFrom`.
unfoldable pub interpret_key : Bytes → Outcome Bytes
interpret_key b = require (length b == key_size) length_invalid >> ok b

-- `VerificationKey.LookupKey`, and the arrays that other tables copy a key into.
unfoldable pub lookup_key : Bytes → Outcome Bytes
lookup_key key = copy_at (make key_size) 0 key_size key

-- `VerificationKey.Copy`.
unfoldable pub copy_key : Bytes → Outcome Bytes
copy_key key = copy_at (make key_size) 0 key_size key

-- `Signature.InterpretFrom`.
unfoldable pub interpret_signature : Bytes → Outcome Bytes
interpret_signature b =
    require (length b == signature_size) length_invalid
    >> copy_at (make signature_size) 0 signature_size b

-- Copying into an array of the key's size never fails, whatever the length of the key.
pub lookup_key_total : (key : Bytes) → (buf : Bytes) × (lookup_key key ≡ ok buf)
unfolding lookup_key copy_at
lookup_key_total key = (_, refl)
