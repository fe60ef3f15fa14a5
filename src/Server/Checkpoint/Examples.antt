-- ===== src/Server/Checkpoint/Examples.antt =====
-- A checkpoint with two keys.
use bmrng.Prelude.{◌≢◌, some}
use bmrng.Prelude.Assoc.{insert, bytes_eq}
use bmrng.Server.Checkpoint.{add, VerificationKeyTable}
use bmrng.Server.Checkpoint.Admitting.{add-get_and_mark}
use bmrng.Prelude.{ℕ, ◌+◌, ◌≤◌, ◌≡◌, refl, Bool, true, false, ◌==◌, [], ◌∷◌, ◌++◌, length, get_or}
use bmrng.Prelude.Int.{pos}
use bmrng.Prelude.Outcome.{ok, err, duplicate}
use bmrng.Prelude.Bytes.{Bytes, make, slice, copy_at}
use bmrng.Prelude.Assoc.{bytes_beq, lookup}
use bmrng.Crypto.Keys.{interpret_key, lookup_key}
use bmrng.Server.Envelopes.{FinalLightningMessage, interpret_final}
use bmrng.Server.Checkpoint.{
  Checkpoint, all_signatures_accounted_for, handle_trustee_message, get_and_mark, mark_key,
}
use bmrng.Server.Checkpoint.Counting.{IsCounted, marked}
use bmrng.Server.Checkpoint.Once.{after, trustee_once}
use bmrng.Server.Checkpoint.Complete.{all_used, all_signatures_accounted_for_lem}

-- A signature is good if it begins with the first byte of the key.
abbrev pub first_byte : Bytes → Bytes → Bytes → Bool
first_byte key message signature = get_or key 0 0 == get_or signature 0 0

abbrev pub two_keys : Checkpoint
two_keys = record {
  num_layers = pos 3;
  anonymous_signing_keys = record {
    keys = (9 ∷ make 31, false) ∷ (8 ∷ make 31, false) ∷ [];
    count = 0;
  };
  final_messages = [];
}

abbrev pub letter : ℕ → FinalLightningMessage
letter text = record {
  anonymous_verification_key = 9 ∷ make 31;
  signature = 9 ∷ make 63;
  message = text ∷ [];
}

abbrev pub encoded : ℕ → Bytes
encoded text = (9 ∷ make 31) ++ (9 ∷ make 63) ++ text ∷ []

encoded-letter : (text : ℕ) → interpret_final (encoded text) ≡ ok (letter text)
unfolding interpret_final slice interpret_key
encoded-letter text = refl

two_keys-accepts : (handle_trustee_message first_byte two_keys (encoded 1)).1 ≡ ok tt
unfolding handle_trustee_message interpret_final slice interpret_key get_and_mark lookup_key copy_at
    mark_key lookup bytes_beq
two_keys-accepts = refl

two_keys-IsCounted : IsCounted two_keys.anonymous_signing_keys
unfolding marked
two_keys-IsCounted = refl

trustee_once_example :
    handle_trustee_message first_byte
      (after first_byte two_keys (encoded 1 ∷ encoded 2 ∷ []))
      (encoded 3)
    ≡ (after first_byte two_keys (encoded 1 ∷ encoded 2 ∷ []), err duplicate)
trustee_once_example =
    trustee_once first_byte two_keys (encoded 1) (encoded 3) (encoded 2 ∷ []) (letter 1) (letter 3)
      (encoded-letter 1) (encoded-letter 3) refl two_keys-accepts

all_signatures_accounted_for_lem_example :
    let d = after first_byte two_keys (encoded 1 ∷ encoded 2 ∷ []) in
    IsCounted d.anonymous_signing_keys
    × (length d.anonymous_signing_keys.keys ≡ 2)
    × (all_signatures_accounted_for d ≡ all_used d.anonymous_signing_keys.keys)
    × (length d.final_messages + 0 ≤ 0 + d.anonymous_signing_keys.count)
all_signatures_accounted_for_lem_example =
    all_signatures_accounted_for_lem first_byte two_keys (encoded 1 ∷ encoded 2 ∷ [])
      two_keys-IsCounted

two_keys-marked :
    get_and_mark two_keys.anonymous_signing_keys (9 ∷ make 31)
    ≡ ok (record { keys = (9 ∷ make 31, true) ∷ (8 ∷ make 31, false) ∷ []; count = 1 })
unfolding get_and_mark lookup_key copy_at mark_key lookup insert bytes_beq
two_keys-marked = refl

two_keys-added :
    add (record { keys = (9 ∷ make 31, true) ∷ (8 ∷ make 31, false) ∷ []; count = 1 }) (9 ∷ make 31)
    ≡ ok (record { keys = (9 ∷ make 31, false) ∷ (8 ∷ make 31, false) ∷ []; count = 1 })
unfolding add lookup_key copy_at insert bytes_beq
two_keys-added = refl

add-get_and_mark_example :
    (1 ≡ marked ((9 ∷ make 31, false) ∷ (8 ∷ make 31, false) ∷ []) + 1)
    × ((w : VerificationKeyTable) × (get_and_mark
            (record { keys = (9 ∷ make 31, false) ∷ (8 ∷ make 31, false) ∷ []; count = 1 })
            (9 ∷ make 31)
          ≡ ok w))
add-get_and_mark_example =
    add-get_and_mark two_keys.anonymous_signing_keys _ _ (9 ∷ make 31) two_keys-IsCounted
      two_keys-marked two_keys-added

seven : lookup_key (7 ∷ make 31) ≡ ok (7 ∷ make 31)
unfolding lookup_key copy_at
seven = refl

seven-unmarked : lookup (7 ∷ make 31) two_keys.anonymous_signing_keys.keys ≢ some true
unfolding lookup bytes_beq
seven-unmarked e = cc

three_keys : VerificationKeyTable
three_keys = record {
  keys = (9 ∷ make 31, false) ∷ (8 ∷ make 31, false) ∷ (7 ∷ make 31, false) ∷ [];
  count = 0;
}

seven-added : add two_keys.anonymous_signing_keys (7 ∷ make 31) ≡ ok three_keys
unfolding add lookup_key copy_at insert bytes_beq three_keys
seven-added = refl
