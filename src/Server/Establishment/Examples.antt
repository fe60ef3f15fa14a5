-- ===== src/Server/Establishment/Examples.antt =====
-- A parser of path messages at the first layer, with a client's message. A token is a number, which is
-- its one byte and its own hash.
use bmrng.Prelude.{
  ◌≡◌, ◌≢◌, refl, ℕ, Bool, true, false, none, some, Option, [], ◌∷◌, ◌++◌, length, get_elem?, leb,
  arith,
}
use bmrng.Prelude.Int.{pos, add, int_eq}
use bmrng.Prelude.Assoc.{bytes_eq, lookup, insert}
use bmrng.Prelude.Outcome.{Outcome, ok, require, decryption_failure}
use bmrng.Prelude.Bytes.{Bytes, make, copy_at, le_bytes, le_value}
use bmrng.Prelude.Pack.{put_le}
use bmrng.Crypto.Keys.{pack_key}
use bmrng.Crypto.Sealing.Opening.{nonce_bytes}
use bmrng.Crypto.Token.Examples.{bit_group}
use bmrng.Network.Buffer.{MemReadWriter, write, new as buffer_new}
use bmrng.Server.Envelopes.{token_content}
use bmrng.Server.Envelopes.Peeling.{box}
use bmrng.Server.KeyTable.{KeyLookupTable, find_key, expand}
use bmrng.Server.Onion.Examples.{flip, flip-IsStreamCipher, checksum, right_sum, right}
use bmrng.Server.Establishment.{
  PathEstablishmentParser, hash_to, require_token, check_receipt, parse_record_and_get_next,
}
use bmrng.Server.Establishment.Checking.{IsTokenValid, check_receipt_lem}
use bmrng.Server.Establishment.Recording.{parse_record_and_get_next-box}

abbrev one_byte : ℕ → Bytes
one_byte t = t ∷ []

abbrev read_byte : Bytes → Outcome ℕ
read_byte [] = ok 0
read_byte (b ∷ bs) = ok b

-- A token is valid for content of the right length.
abbrev valid_for : ℕ → Bytes → Bool
valid_for t content = leb 44 (length content)

abbrev any_point : Bytes → Option Bool
any_point k = some true

abbrev zero_key : Bool → Bytes
zero_key p = make 32

abbrev no_expansion : Bytes → Outcome ℕ
no_expansion k = ok 0

abbrev path_parser : PathEstablishmentParser ℕ Bool
path_parser = record {
  c = record { round = pos 0; layer = pos 0; num_layers = pos 2; my_id = pos 4 };
  links = record {
    num_servers = 6;
    num_groups = 1;
    bin_size = 2;
    group_bin_size = 2;
    onion_message_lengths = [];
    path_message_lengths = [];
    boomerang_message_lengths = 8 ∷ 72 ∷ [];
  };
  table = record { heap = []; table = []; reverse_table = [] };
  layer = 0;
  outgoing_buffers = (pos 1, buffer_new 40 2) ∷ [];
  checkpoint = none;
}

abbrev client_key : Bytes
client_key = 9 ∷ make 31

abbrev next_key : Bytes
next_key = 8 ∷ make 31

incoming-IsTokenValid :
    IsTokenValid {Expanded = ℕ} bit_group 1 one_byte 0 read_byte valid_for one_byte any_point
      zero_key false no_expansion flip right_sum 4
      (pos 0)
      (pos 0)
      (pos 3)
      client_key
unfolding require_token token_content put_le copy_at le_bytes pack_key
incoming-IsTokenValid = refl

outgoing-IsTokenValid :
    IsTokenValid {Expanded = ℕ} bit_group 1 one_byte 0 read_byte valid_for one_byte any_point
      zero_key false no_expansion flip right_sum 1
      (add (pos 0) (pos 1))
      (add (pos 0) (pos 1))
      (pos 4)
      next_key
unfolding require_token token_content put_le copy_at le_bytes pack_key
outgoing-IsTokenValid = refl

leads_to : hash_to (one_byte 4) 6 ≡ ok 4
unfolding hash_to le_value
leads_to = refl

leads_on : hash_to (one_byte 1) 6 ≡ ok 1
unfolding hash_to le_value
leads_on = refl

not_expanded : expand {Expanded = ℕ} false any_point zero_key no_expansion client_key ≡ ok none
unfolding expand
not_expanded = refl

abbrev written : MemReadWriter
written = record (buffer_new 40 2) {
  messages = (next_key ++ (one_byte 1 ++ (6 ∷ []))) ∷ [] ∷ [];
  element_count = 1;
}

writes : write (buffer_new 40 2) (next_key ++ (one_byte 1 ++ (6 ∷ []))) ≡ ok written
unfolding write buffer_new
writes = refl

parse_record_and_get_next-box_example :
    (u : KeyLookupTable ℕ) × (parse_record_and_get_next bit_group 1 one_byte 0 read_byte valid_for
        one_byte any_point zero_key false no_expansion flip right_sum path_parser
        (pos 3)
        (client_key
          ++ (one_byte 4
              ++ box flip
                  (next_key ++ (one_byte 1 ++ (make 8 ++ (6 ∷ []))))
                  (make 32)
                  checksum
                  (nonce_bytes (pos 0) (pos 0) (pos 4))))
      ≡ (
        record path_parser {
          table = u;
          outgoing_buffers = insert (pos 1) written path_parser.outgoing_buffers;
        },
        ok (make 8, 0),
      ))
    × (find_key u client_key false ≡ some 0)
    × (get_elem? u.heap 0
        ≡ some (record {
          prev_server = pos 3;
          shared_key = make 32;
          verification_key = client_key;
          expanded_verification_key = none;
          next_server = pos 1;
          outgoing_shared_key = make 32;
          outgoing_verification_key = next_key;
          expanded_outgoing_verification_key = none;
          used = false;
        }))
    × ((other : Bytes)
        → client_key ≢ other
        → find_key u other false ≡ find_key path_parser.table other false)
unfolding lookup
parse_record_and_get_next-box_example =
    parse_record_and_get_next-box bit_group 1 one_byte 0 read_byte valid_for one_byte any_point
      zero_key false no_expansion flip right_sum path_parser (pos 3) client_key next_key (make 8)
      (6 ∷ []) 4 1 checksum 4 1 true true none (buffer_new 40 2) written flip-IsStreamCipher refl
      refl (λ u. refl) (λ u. refl) (λ d. refl) (omega arith) right refl incoming-IsTokenValid
      outgoing-IsTokenValid leads_to refl leads_on refl refl not_expanded refl refl writes

check_receipt_lem_example :
    check_receipt bit_group 1 one_byte 0 read_byte valid_for one_byte any_point zero_key false
      no_expansion flip right_sum path_parser
      (record {
        out_key = next_key;
        out_token = 1;
        boomerang_envelope = (5 ∷ []) ++ make 64;
        next_envelope = [];
        raw = next_key ++ (one_byte 1 ++ ((5 ∷ []) ++ make 64));
      })
    ≡ require
        (right_sum next_key (nonce_bytes (pos 2) (pos 2) (pos 4) ++ (5 ∷ [])) (make 64))
        decryption_failure
check_receipt_lem_example =
    check_receipt_lem bit_group 1 one_byte 0 read_byte valid_for one_byte any_point zero_key false
      no_expansion flip right_sum path_parser next_key (one_byte 1) (5 ∷ []) (make 64) 1 refl refl
      refl
