-- ===== src/Server/Members/Examples.antt =====
-- A member whose group has one key.
use bmrng.Prelude.{◌≡◌, refl, ◌≤◌, true, some, none, [], ◌∷◌, length}
use bmrng.Prelude.Int.{pos, succ}
use bmrng.Prelude.Assoc.{bytes_eq, bytes_beq, lookup, insert}
use bmrng.Prelude.Outcome.{ok}
use bmrng.Prelude.Bytes.{make, slice, copy_at}
use bmrng.Crypto.Keys.{interpret_key, lookup_key}
use bmrng.Server.Checkpoint.{
  all_signatures_accounted_for, handle_trustee_message, accept_final, get_and_mark, mark_key,
  reset_signature_marking, unmark,
}
use bmrng.Server.Checkpoint.Complete.{all_used}
use bmrng.Server.Checkpoint.Examples.{encoded, first_byte}
use bmrng.Server.Checkpoint.Once.{after}
use bmrng.Server.Envelopes.{interpret_final}
use bmrng.Server.Members.{GroupMember, new, on_threshold, new_lightning_round, get_messages}
use bmrng.Server.Members.Finishing.{with_messages, on_threshold-new_lightning_round}

abbrev one_key : GroupMember
one_key = record (new 2 (pos 1) (pos 2) (λ l. (2, succ l))) {
  checkpoint = record {
    num_layers = pos 2;
    anonymous_signing_keys = record { keys = (9 ∷ make 31, true) ∷ []; count = 1 };
    final_messages = (5 ∷ []) ∷ [];
  };
}

spoken :
    (h : GroupMember) × (on_threshold
        (with_messages first_byte (new_lightning_round one_key (pos 2)) (encoded 1 ∷ []))
        (pos 2)
      ≡ ok (h, 2, pos 3))
unfolding on_threshold new_lightning_round after handle_trustee_message accept_final interpret_final
    slice interpret_key get_and_mark lookup_key copy_at mark_key lookup insert bytes_beq
    reset_signature_marking unmark all_signatures_accounted_for new
spoken = (_, refl)

on_threshold-new_lightning_round_example :
    let g' = with_messages first_byte (new_lightning_round one_key (pos 2)) (encoded 1 ∷ []) in
    (get_messages g' ≡ none)
    × (all_used g'.checkpoint.anonymous_signing_keys.keys ≡ true)
    × (get_messages spoken.0 ≡ some g'.checkpoint.final_messages)
    × (length g'.checkpoint.final_messages ≤ 1)
on_threshold-new_lightning_round_example =
    on_threshold-new_lightning_round first_byte one_key spoken.0 (pos 2) (encoded 1 ∷ []) 2 (pos 3)
      spoken.1
