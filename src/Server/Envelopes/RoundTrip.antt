-- ===== src/Server/Envelopes/RoundTrip.antt =====
-- Packing and parsing of envelopes and final messages.
use mathlib.Core.List.{append_assoc}
use bmrng.Prelude.{
  ℕ, ◌+◌, ◌≡◌, refl, sym, ◌∙◌, [], ◌++◌, length, ==_refl, le→ltb, length-append, length-replicate,
  arith,
}
use bmrng.Prelude.Outcome.{Outcome, ok, err, panic, ◌>>=◌}
use bmrng.Prelude.Bytes.{Bytes, make, copy_at}
use bmrng.Prelude.Pack.{slice_part, slice_tail, make-append, make_three, copy_part, copy_last}
use bmrng.Crypto.Keys.{key_size, signature_size, pack_key, interpret_key}
use bmrng.Server.Envelopes.{
  LightningEnvelope, FinalLightningMessage, lightning_len, interpret_lightning, pack_lightning,
  marshal_lightning, final_len, pack_final, interpret_final, marshal_final, marshal_without_key,
}

-- A buffer of two fields.
pack_two :
    (a b : Bytes) (m : ℕ)
    → length a ≡ m
    → (copy_at (make (m + length b)) 0 m a >>= λ c. copy_at c m (length c) b) ≡ ok (a ++ b)
pack_two a b m p =
    let zero_a = length-replicate {A = ℕ} m 0 in
    let zero_b = length-replicate {A = ℕ} (length b) 0 in
    rw (
      make-append m (length b),
      copy_part [] (make m) a (make (length b)) 0 m refl (zero_a ∙ sym p) (omega arith),
      copy_last a (make (length b)) b m (length (a ++ make (length b))) p zero_b
          (omega (arith, length-append a (make (length b)))),
    )

last_call :
    (o : Outcome Bytes) (f : Bytes → Outcome Bytes) → (o >>= λ b. f b >>= λ c. ok c) ≡ (o >>= f)
last_call (ok b) f = elim (f b) as (λ o. (o >>= λ c. ok c) ≡ o) [
  | ok c ↦ refl
  | err e ↦ refl
  | panic ↦ refl
]
last_call (err e) f = refl
last_call panic f = refl

pub marshal_lightning_lem :
    (l : LightningEnvelope)
    → length l.key ≡ key_size
    → marshal_lightning l ≡ ok (l.key ++ l.signed_ciphertext)
unfolding marshal_lightning pack_lightning lightning_len
marshal_lightning_lem l p =
    let size = length-replicate {A = ℕ} (key_size + length l.signed_ciphertext) 0 in
    rw (size, ==_refl (key_size + length l.signed_ciphertext))
      (last_call (copy_at (make (key_size + length l.signed_ciphertext)) 0 key_size l.key)
          (λ b. copy_at b key_size (length b) l.signed_ciphertext)
        ∙ pack_two l.key l.signed_ciphertext key_size p)

pub interpret_lightning-append :
    (key c : Bytes)
    → length key ≡ key_size
    → interpret_lightning (key ++ c)
      ≡ ok (record { key = key; signed_ciphertext = c; raw = key ++ c })
unfolding interpret_lightning
interpret_lightning-append key c p = rw (
  slice_part [] key c 0 key_size refl (omega arith),
  slice_tail key c key_size (length (key ++ c)) p refl,
)

-- An envelope with a whole key is parsed from its own marshalling, and the parsed one keeps those
-- bytes as its raw data.
pub interpret_lightning-marshal_lightning :
    (l : LightningEnvelope)
    → length l.key ≡ key_size
    → (marshal_lightning l >>= interpret_lightning)
      ≡ ok (record l { raw = l.key ++ l.signed_ciphertext })
interpret_lightning-marshal_lightning l p =
    rw (marshal_lightning_lem l p) (interpret_lightning-append l.key l.signed_ciphertext p)

pub marshal_final_lem :
    (l : FinalLightningMessage)
    → length l.anonymous_verification_key ≡ key_size
    → length l.signature ≡ signature_size
    → marshal_final l ≡ ok (l.anonymous_verification_key ++ (l.signature ++ l.message))
unfolding marshal_final pack_final final_len pack_key
marshal_final_lem l p q =
    let k = l.anonymous_verification_key in
    let n = length l.message in
    let zero_all = length-replicate {A = ℕ} (key_size + signature_size + n) 0 in
    let zero_n = length-replicate {A = ℕ} n 0 in
    let ks = length-append k l.signature in
    let end' = length-append (k ++ l.signature) (make n) in
    rw (
      zero_all,
      ==_refl (key_size + signature_size + n),
      make_three key_size signature_size n,
      copy_part [] (make key_size) k (make signature_size ++ make n) 0 key_size refl (sym p)
          (omega arith),
      copy_part k (make signature_size) l.signature (make n) key_size (key_size + signature_size) p
          (sym q) (omega arith),
      ← append_assoc k l.signature (make n),
      copy_last (k ++ l.signature) (make n) l.message (key_size + signature_size)
          (length ((k ++ l.signature) ++ make n)) (omega arith) zero_n (omega arith),
      append_assoc k l.signature l.message,
    )

-- A final message with a whole key and signature is parsed from its own marshalling.
pub interpret_final-marshal_final :
    (l : FinalLightningMessage)
    → length l.anonymous_verification_key ≡ key_size
    → length l.signature ≡ signature_size
    → (marshal_final l >>= interpret_final) ≡ ok l
unfolding interpret_final interpret_key
interpret_final-marshal_final l p q =
    let k = l.anonymous_verification_key in
    let whole = length-append k (l.signature ++ l.message) in
    let tail = length-append l.signature l.message in
    rw (
      marshal_final_lem l p q,
      le→ltb (length (k ++ (l.signature ++ l.message))) signature_size (omega arith),
      slice_part [] k (l.signature ++ l.message) 0 key_size refl (omega arith),
      p,
      slice_part k l.signature l.message key_size (key_size + signature_size) p (omega arith),
      ← append_assoc k l.signature l.message,
      slice_tail (k ++ l.signature) l.message (key_size + signature_size)
          (length ((k ++ l.signature) ++ l.message)) (omega (arith, length-append k l.signature))
          refl,
    )

pub without_key :
    (l : FinalLightningMessage)
    → length l.signature ≡ signature_size
    → marshal_without_key l ≡ ok (l.signature ++ l.message)
unfolding marshal_without_key
without_key l q =
    last_call (copy_at (make (signature_size + length l.message)) 0 signature_size l.signature)
      (λ b. copy_at b signature_size (length b) l.message)
    ∙ pack_two l.signature l.message signature_size q

-- The last server puts the key of the path in front of what it decrypted: an envelope of that key,
-- with a final message marshalled without its key inside, is the marshalled final message.
pub marshal_lightning-marshal_without_key :
    (l : FinalLightningMessage)
    → length l.anonymous_verification_key ≡ key_size
    → length l.signature ≡ signature_size
    → (marshal_without_key l >>= λ c.
        marshal_lightning
          (record { key = l.anonymous_verification_key; signed_ciphertext = c; raw = [] }))
      ≡ marshal_final l
marshal_lightning-marshal_without_key l p q = rw (
  without_key l q,
  marshal_final_lem l p q,
  marshal_lightning_lem
      (record {
        key = l.anonymous_verification_key;
        signed_ciphertext = l.signature ++ l.message;
        raw = [];
      })
      p,
)
