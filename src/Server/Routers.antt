-- ===== src/Server/Routers.antt =====
-- server/processMessages/onion.go and trusteeSender.go: the buffers that a layer writes to, one for
-- each server or group, and the router of the last layer.
pub mod Packing
pub mod Examples
use bmrng.Prelude.{
  ℕ, zero, suc, ◌+◌, Bool, true, false, if◌then◌else◌, Option, none, some, List, [], ◌∷◌, length,
  get_elem?,
}
use bmrng.Prelude.Int.{ℤ, pos, int_eq}
use bmrng.Prelude.Assoc.{lookup, insert}
use bmrng.Prelude.Outcome.{Outcome, ok, panic, ◌>>=◌}
use bmrng.Prelude.Bytes.{Bytes, slice}
use bmrng.Crypto.Keys.{signature_size}
use bmrng.Network.Buffer.{MemReadWriter, write, new}
use bmrng.Server.Envelopes.{FinalLightningMessage, marshal_final}
use bmrng.Server.KeyTable.{BootstrapKey}
use bmrng.Server.Onion.{LightningRouter}

-- What the routers read of `CommonState`; the shufflers are passed to `shuffle` (Network/Buffer).
pub record Links : Type 0 where
  pub num_servers : ℕ
  pub num_groups : ℕ
  pub bin_size : ℕ
  pub group_bin_size : ℕ
  pub onion_message_lengths : List ℕ
  pub path_message_lengths : List ℕ
  pub boomerang_message_lengths : List ℕ

-- A slice's element, with the run-time check.
abbrev pub at : List ℕ → ℕ → Outcome ℕ
at xs i = elim (get_elem? xs i) [ none ↦ panic | some x ↦ ok x ]

-- The loop of the constructors, from `i` on: `buffers[i] = NewMemReadWriter(...)`.
unfoldable pub make_buffers : ℕ → ℕ → ℕ → ℕ → LightningRouter → LightningRouter
make_buffers zero i element_length bin_size l = l
make_buffers (suc n) i element_length bin_size l =
    make_buffers n (i + 1) element_length bin_size (insert (pos i) (new element_length bin_size) l)

-- `NewLightningRouter`.
unfoldable pub new_lightning_router : Links → ℕ → Bool → Outcome LightningRouter
unfolding make_buffers
new_lightning_router c layer reverse = do
  n ← at c.onion_message_lengths (if reverse then layer else layer + 1)
  ok (make_buffers c.num_servers 0 n c.bin_size [])

-- `NewTrusteeRouter`.
unfoldable pub new_trustee_router : Links → ℕ → Outcome LightningRouter
unfolding make_buffers
new_trustee_router c layer = do
  n ← at c.onion_message_lengths layer
  ok (make_buffers c.num_groups 0 n c.group_bin_size [])

-- `TrusteeRouter.Pack`: the final message of what was decrypted, for the group in `NextServer`.
unfoldable pub trustee_pack :
    {Expanded : Type 0} → LightningRouter → Bytes → BootstrapKey Expanded → Outcome LightningRouter
trustee_pack t decrypted k = do
  signature ← slice decrypted 0 signature_size
  message ← slice decrypted signature_size (length decrypted)
  b ← marshal_final (record {
    anonymous_verification_key = k.outgoing_verification_key;
    signature = signature;
    message = message;
  })
  buffer ← elim (lookup k.next_server t) [ none ↦ panic | some buffer ↦ ok buffer ]
  buffer' ← write buffer b
  ok (insert k.next_server buffer' t)
