-- ===== src/Server/Routers/Examples.antt =====
-- The routers of a layer, and a final message.
use bmrng.Prelude.{◌≡◌, refl, ℕ, none, some, [], ◌∷◌, ◌++◌, false}
use bmrng.Prelude.Int.{pos, int_eq}
use bmrng.Prelude.Assoc.{lookup, insert}
use bmrng.Prelude.Outcome.{ok, ◌>>=◌}
use bmrng.Prelude.Bytes.{make}
use bmrng.Network.Buffer.{MemReadWriter, write, new}
use bmrng.Server.Envelopes.{FinalLightningMessage}
use bmrng.Server.Envelopes.RoundTrip.{without_key, marshal_final_lem}
use bmrng.Server.KeyTable.{BootstrapKey}
use bmrng.Server.Routers.{trustee_pack}
use bmrng.Server.Routers.Packing.{trustee_pack-marshal_without_key}

abbrev group_record : BootstrapKey ℕ
group_record = record {
  prev_server = pos 4;
  shared_key = make 32;
  verification_key = 8 ∷ make 31;
  expanded_verification_key = none;
  next_server = pos 0;
  outgoing_shared_key = make 32;
  outgoing_verification_key = 7 ∷ make 31;
  expanded_outgoing_verification_key = none;
  used = false;
}

abbrev final : FinalLightningMessage
final = record { anonymous_verification_key = 7 ∷ make 31; signature = make 64; message = 3 ∷ [] }

abbrev group_buffer : MemReadWriter
group_buffer = new 97 2

group_known : lookup (pos 0) ((pos 0, group_buffer) ∷ []) ≡ some group_buffer
unfolding lookup
group_known = refl

trustee_pack-marshal_without_key_example :
    trustee_pack ((pos 0, group_buffer) ∷ []) (make 64 ++ (3 ∷ [])) group_record ≡ (
      write group_buffer ((7 ∷ make 31) ++ (make 64 ++ (3 ∷ []))) >>= λ buffer'.
      ok (insert (pos 0) buffer' ((pos 0, group_buffer) ∷ [])))
trustee_pack-marshal_without_key_example =
    trustee_pack-marshal_without_key ((pos 0, group_buffer) ∷ []) group_record final
      (make 64 ++ (3 ∷ [])) ((7 ∷ make 31) ++ (make 64 ++ (3 ∷ []))) group_buffer refl refl
      (without_key final refl) (marshal_final_lem final refl refl) group_known
