-- ===== src/Server/Envelopes/Lengths.antt =====
-- The lengths that `FinalLightningMessage.InterpretFrom` is prepared for.
use bmrng.Prelude.{
  ℕ, ◌+◌, ◌-◌, take, drop, ◌≤◌, ◌<◌, ◌≡◌, ◌↔◌, length, lt→ltb, le→ltb, le→leb, length-take, arith,
}
use native.Mathlib.Decide.{dec_lt}
use bmrng.Prelude.Outcome.{length_invalid, ok, err, panic}
use bmrng.Prelude.Bytes.{Bytes, slice}
use bmrng.Prelude.Pack.{slice_front}
use bmrng.Crypto.Keys.{key_size, signature_size, interpret_key}
use bmrng.Server.Envelopes.{FinalLightningMessage, interpret_final}

slice_beyond : (b : Bytes) (lo hi : ℕ) → length b < hi → slice b lo hi ≡ panic
unfolding slice
slice_beyond b lo hi h = ground arith

slice_within :
    (b : Bytes) (lo hi : ℕ)
    → lo ≤ hi
    → hi ≤ length b
    → slice b lo hi ≡ ok (take (hi - lo) (drop lo b))
unfolding slice
slice_within b lo hi p q = rw (le→leb lo hi p, le→leb hi (length b) q)

interpret_front :
    (b : Bytes) → key_size ≤ length b → interpret_key (take key_size b) ≡ ok (take key_size b)
unfolding interpret_key
interpret_front b h = rw (same_length b h)
  where
    same_length : (b : Bytes) → key_size ≤ length b → length (take key_size b) ≡ key_size
    same_length b h = omega (arith, length-take key_size b)

final_short : (b : Bytes) → length b < signature_size → interpret_final b ≡ err length_invalid
unfolding interpret_final
final_short b h = rw (lt→ltb (length b) signature_size h)

final_broken :
    (b : Bytes)
    → signature_size ≤ length b
    → length b < key_size + signature_size
    → interpret_final b ≡ panic
unfolding interpret_final
final_broken b p q = rw (
  le→ltb (length b) signature_size p,
  slice_front b key_size (omega arith),
  interpret_front b (omega arith),
  slice_beyond b key_size (key_size + signature_size) q,
)

final_long :
    (b : Bytes)
    → key_size + signature_size ≤ length b
    → (l : FinalLightningMessage) × (interpret_final b ≡ ok l)
unfolding interpret_final
final_long b p = (
  record {
    anonymous_verification_key = take key_size b;
    signature = take signature_size (drop key_size b);
    message = take (length b - (key_size + signature_size)) (drop (key_size + signature_size) b);
  },
  rw (
    le→ltb (length b) signature_size (omega arith),
    slice_front b key_size (omega arith),
    interpret_front b (omega arith),
    slice_within b key_size (key_size + signature_size) (omega arith) p,
    slice_within b (key_size + signature_size) (length b) p (omega arith),
  ),
)

-- What `InterpretFrom` does with a length. It panics exactly on the lengths that its test lets through
-- although a key and a signature do not fit, from 64 to 95 bytes, and it returns its length error
-- exactly on those below 64.
pub interpret_final-panic :
    (b : Bytes)
    → ((interpret_final b ≡ panic)
        ↔ ((signature_size ≤ length b) × (length b < key_size + signature_size)))
      × ((interpret_final b ≡ err length_invalid) ↔ (length b < signature_size))
interpret_final-panic b =
    ((only b, λ (p, q). final_broken b p q), (refused b, λ p. final_short b p))
  where
    only :
        (b : Bytes)
        → interpret_final b ≡ panic
        → (signature_size ≤ length b) × (length b < key_size + signature_size)
    only b h = elim (dec_lt (length b) signature_size) [
      | yes short ↦ absurd (ground (arith, final_short b short))
      | no long ↦ elim (dec_lt (length b) (key_size + signature_size)) [
        | yes q ↦ (omega arith, q)
        | no large ↦ (let (l, e) = final_long b (omega arith) in absurd (ground (arith, h, e)))
      ]
    ]

    refused : (b : Bytes) → interpret_final b ≡ err length_invalid → length b < signature_size
    refused b h = elim (dec_lt (length b) signature_size) [
      | yes short ↦ short
      | no long ↦ elim (dec_lt (length b) (key_size + signature_size)) [
        | yes q ↦ absurd (ground (arith, h, final_broken b (omega arith) q))
        | no large ↦ (let (l, e) = final_long b (omega arith) in absurd (ground (arith, h, e)))
      ]
    ]
