-- ===== src/Server/Routers/Packing.antt =====
-- The buffers of a new router, and what the last layer writes for the trustees.
use native.Mathlib.Decide.{dec_lt}
use bmrng.Prelude.{
  ℕ, zero, suc, ◌+◌, ◌≤◌, ◌<◌, ◌≡◌, ◌≢◌, refl, sym, ◌∙◌, some, [], ◌++◌, length, ==_ne, arith,
}
use bmrng.Prelude.Int.{pos, int_eq}
use bmrng.Prelude.Assoc.{lookup, insert, lookup-insert, lookup-insert_self}
use bmrng.Prelude.Outcome.{ok, ok-injective, ◌>>=◌}
use bmrng.Prelude.Bytes.{Bytes}
use bmrng.Prelude.Pack.{slice_part, slice_tail}
use bmrng.Crypto.Keys.{signature_size}
use bmrng.Network.Buffer.{MemReadWriter, write, new}
use bmrng.Server.Envelopes.{FinalLightningMessage, marshal_final, marshal_without_key}
use bmrng.Server.Envelopes.RoundTrip.{without_key}
use bmrng.Server.KeyTable.{BootstrapKey}
use bmrng.Server.Onion.{LightningRouter}
use bmrng.Server.Routers.{make_buffers, trustee_pack}

lookup-insert_other :
    (i j : ℕ) (m : MemReadWriter) (l : LightningRouter)
    → i ≢ j
    → lookup (pos j) (insert (pos i) m l) ≡ lookup (pos j) l
lookup-insert_other i j m l apart = rw (lookup-insert (pos i) (pos j) m l, ==_ne i j apart)

-- The loop leaves the buffers before its start.
make_buffers-kept :
    (n i j len bin : ℕ) (l : LightningRouter)
    → j < i
    → lookup (pos j) (make_buffers n i len bin l) ≡ lookup (pos j) l
unfolding make_buffers
make_buffers-kept zero i j len bin l h = refl
make_buffers-kept (suc n) i j len bin l h =
    make_buffers-kept n (i + 1) j len bin (insert (pos i) (new len bin) l) (omega arith)
    ∙ lookup-insert_other i j (new len bin) l (λ e. omega arith)

-- A new router has a buffer for every number that its loop goes over, empty and of the length given.
pub make_buffers_lem :
    (n i j len bin : ℕ) (l : LightningRouter)
    → i ≤ j
    → j < i + n
    → lookup (pos j) (make_buffers n i len bin l) ≡ some (new len bin)
unfolding make_buffers
make_buffers_lem zero i j len bin l p q = absurd (omega arith)
make_buffers_lem (suc n) i j len bin l p q = elim (dec_lt i j) [
  | yes later ↦
      make_buffers_lem n (i + 1) j len bin (insert (pos i) (new len bin) l) (omega arith)
        (omega arith)
  | no first ↦
      (let e = same i j p first in
        make_buffers-kept n (i + 1) j len bin (insert (pos i) (new len bin) l) (omega arith)
        ∙ rw e (lookup-insert_self (pos j) (new len bin) l))
]
  where
    same : (i j : ℕ) → i ≤ j → ¬ (i < j) → i ≡ j
    same i j p q = omega arith

-- The last layer gives the trustees the client's final message. If a layer decrypted a final message
-- without its key, and the record's outgoing key is the message's anonymous key, the router writes the
-- whole final message to the buffer of the record's group, and to no other.
pub trustee_pack-marshal_without_key :
    {Expanded : Type 0} (t : LightningRouter) (k : BootstrapKey Expanded)
    (l : FinalLightningMessage) (decrypted b : Bytes) (buffer : MemReadWriter)
    → length l.signature ≡ signature_size
    → k.outgoing_verification_key ≡ l.anonymous_verification_key
    → marshal_without_key l ≡ ok decrypted
    → marshal_final l ≡ ok b
    → lookup k.next_server t ≡ some buffer
    → trustee_pack t decrypted k
      ≡ (write buffer b >>= λ buffer'. ok (insert k.next_server buffer' t))
unfolding trustee_pack
trustee_pack-marshal_without_key t k l decrypted b buffer ls same inner whole known = rw (
  ← ok-injective (sym (without_key l ls) ∙ inner),
  slice_part [] l.signature l.message 0 signature_size refl (omega arith),
  slice_tail l.signature l.message signature_size (length (l.signature ++ l.message)) ls refl,
  same,
  whole,
  known,
)
