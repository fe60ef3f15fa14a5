-- ===== src/Server/Client/Examples.antt =====
-- A path through two servers.
use bmrng.Prelude.{◌≡◌, refl, ℕ, ◌+◌, some, List, get_elem?, length, [], ◌∷◌, ◌++◌, arith}
use bmrng.Prelude.Int.{pos}
use bmrng.Prelude.Assoc.{bytes_eq, lookup, bytes_beq}
use bmrng.Prelude.Outcome.{ok, ◌>>=◌}
use bmrng.Prelude.Bytes.{Bytes, make}
use bmrng.Server.Envelopes.{marshal_lightning, interpret_final}
use bmrng.Server.KeyTable.{BootstrapKey, find_key}
use bmrng.Server.Onion.{OnionParser, signature_valid, verify_with}
use bmrng.Server.Onion.Examples.{
  flip, flip-IsStreamCipher, checksum, right_sum, by_sum, right, record_key, parser,
}
use bmrng.Server.Client.{PathKey, lightning_submission}
use bmrng.Server.Client.Relaying.{IsHop, IsPath, done, hop, relay}
use bmrng.Server.Client.Delivering.{lightning_submission-relay}
use bmrng.Server.Client.{onion_encrypt}
use bmrng.Server.Lengths.{lightning_message_lengths}
use bmrng.Server.Client.Sizes.{AreWhole, lightning_message_lengths-lightning_submission}

abbrev first_key : PathKey
first_key = record {
  signing_key = checksum;
  server_id = pos 4;
  shared = make 32;
  prev_server_id = pos 0;
  prev_shared = make 32;
}

abbrev second_key : PathKey
second_key = record first_key { server_id = pos 5; prev_server_id = pos 4 }

-- The server behind `parser`, whose record leads to the anonymous key.
abbrev second_record : BootstrapKey ℕ
second_record = record record_key {
  prev_server = pos 4;
  verification_key = 8 ∷ make 31;
  next_server = pos 0;
  outgoing_verification_key = 7 ∷ make 31;
}

abbrev second_parser : OnionParser ℕ
second_parser = record parser {
  c = record { round = pos 1; layer = pos 1; num_layers = pos 2; my_id = pos 5 };
  key_table = record {
    heap = second_record ∷ [];
    table = (8 ∷ make 31, 0) ∷ [];
    reverse_table = [];
  };
}

first-IsHop : IsHop flip right_sum by_sum (pos 1) 0 (9 ∷ make 31) parser 0 record_key first_key
unfolding signature_valid verify_with find_key lookup bytes_beq
first-IsHop = record {
  same_round = refl;
  same_layer = refl;
  same_server = refl;
  forward = refl;
  whole_key = refl;
  whole_outgoing = refl;
  known = refl;
  found = refl;
  fresh = refl;
  same_shared = refl;
  long_shared = omega arith;
  signs = λ d. refl;
  verifies = right;
}

second-IsHop :
    IsHop flip right_sum by_sum (pos 1) 1 (8 ∷ make 31) second_parser 0 second_record second_key
unfolding signature_valid verify_with find_key lookup bytes_beq
second-IsHop = record {
  same_round = refl;
  same_layer = refl;
  same_server = refl;
  forward = refl;
  whole_key = refl;
  whole_outgoing = refl;
  known = refl;
  found = refl;
  fresh = refl;
  same_shared = refl;
  long_shared = omega arith;
  signs = λ d. refl;
  verifies = right;
}

two_hops-IsPath :
    IsPath flip right_sum by_sum
      (pos 1)
      0
      (9 ∷ make 31)
      (parser ∷ second_parser ∷ [])
      (first_key ∷ second_key ∷ [])
      (7 ∷ make 31)
two_hops-IsPath =
    hop parser 0 record_key first_key first-IsHop
      (hop second_parser 0 second_record second_key second-IsHop done)

lightning_submission-relay_example :
    (lightning_submission flip
        (pos 1)
        2
        (9 ∷ make 31)
        (first_key ∷ second_key ∷ first_key ∷ [])
        (first_key ∷ second_key ∷ [])
        (3 ∷ 2 ∷ [])
      >>= marshal_lightning
      >>= relay flip right_sum by_sum (parser ∷ second_parser ∷ [])
      >>= interpret_final)
    ≡ ok (record {
      anonymous_verification_key = 7 ∷ make 31;
      signature = checksum (3 ∷ 2 ∷ []);
      message = 3 ∷ 2 ∷ [];
    })
lightning_submission-relay_example =
    lightning_submission-relay flip right_sum by_sum (pos 1) 2 (9 ∷ make 31) (7 ∷ make 31)
      (3 ∷ 2 ∷ []) (parser ∷ second_parser ∷ []) (first_key ∷ second_key ∷ first_key ∷ [])
      (first_key ∷ second_key ∷ []) first_key flip-IsStreamCipher refl refl refl refl
      two_hops-IsPath

two_keys-AreWhole : AreWhole (first_key ∷ second_key ∷ [])
two_keys-AreWhole = (omega arith, (λ d. refl), (omega arith, (λ d. refl), tt))

lightning_message_lengths-lightning_submission_example :
    (table : List ℕ) × (b : Bytes) × (c : Bytes) × (lightning_message_lengths 2 2 ≡ ok table)
    × ((lightning_submission flip
            (pos 1)
            2
            (9 ∷ make 31)
            (first_key ∷ second_key ∷ first_key ∷ [])
            (first_key ∷ second_key ∷ [])
            (3 ∷ 2 ∷ [])
          >>= marshal_lightning)
        ≡ ok b)
    × (get_elem? table 0 ≡ some (length b))
    × (onion_encrypt flip (pos 1) 1 (second_key ∷ []) (checksum (3 ∷ 2 ∷ []) ++ 3 ∷ 2 ∷ []) ≡ ok c)
    × (get_elem? table 1 ≡ some (32 + length c))
lightning_message_lengths-lightning_submission_example =
    lightning_message_lengths-lightning_submission flip (pos 1) 2 1 (9 ∷ make 31) (3 ∷ 2 ∷ [])
      (first_key ∷ second_key ∷ first_key ∷ []) (first_key ∷ second_key ∷ []) first_key
      flip-IsStreamCipher two_keys-AreWhole refl (omega arith) refl refl refl
