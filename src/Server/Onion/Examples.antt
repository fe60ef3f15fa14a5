-- ===== src/Server/Onion/Examples.antt =====
-- A parser with one key, and a router to one server.
use bmrng.Prelude.{
  ℕ, ◌-◌, ◌≤◌, ◌≡◌, ◌≢◌, refl, Bool, true, false, none, some, [], ◌∷◌, ◌++◌, length, map, arith,
  leb, if◌then◌else◌, ap, ap₂, drop,
}
use bmrng.Prelude.Int.{pos, int_eq}
use bmrng.Prelude.Assoc.{lookup, insert, bytes_beq, bytes_beq_iff}
use bmrng.Prelude.Outcome.{ok, ◌>>=◌}
use bmrng.Prelude.Bytes.{Bytes, make}
use bmrng.Crypto.Sealing.Opening.{IsStreamCipher, nonce_bytes}
use bmrng.Network.Buffer.{write, new as buffer_new}
use bmrng.Server.Envelopes.Peeling.{seal_envelope, box, seal_envelope_lem}
use bmrng.Server.KeyTable.{BootstrapKey, find_key, set_used}
use bmrng.Server.Onion.{
  OnionParser, LightningRouter, nonce_layer, signature_valid, verify_with, decryption_key,
  authenticated_onion_parse, authenticated_onion_pack,
}
use bmrng.Server.Onion.Accepting.{authenticated_onion_parse-seal_envelope}
use bmrng.Server.Onion.Usage.{used_keys}
use bmrng.Server.Onion.Once.{after, count-after, onion_once}
use bmrng.Server.Onion.Routing.{authenticated_onion_pack-seal_envelope}

-- The complement of a byte, as a key stream.
pub complement : ℕ → ℕ
complement b = if leb b 255 then 255 - b else b

twice : (b : ℕ) → complement (complement b) ≡ b
unfolding complement
twice b = ground arith

abbrev pub flip : Bytes → Bytes → Bytes → Bytes
flip key iv m = map complement m

pub flip-IsStreamCipher : IsStreamCipher flip
flip-IsStreamCipher = record { same_length = λ key iv m. same m; involutive = λ key iv m. back m }
  where
    same : (m : Bytes) → length (map complement m) ≡ length m
    same [] = refl
    same (b ∷ m) = omega (arith, same m)

    back : (m : Bytes) → map complement (map complement m) ≡ m
    back [] = refl
    back (b ∷ m) = ap₂ ◌∷◌ (twice b) (back m)

-- A signature is the length of the message, in 64 bytes.
abbrev pub checksum : Bytes → Bytes
checksum d = length d ∷ make 63

abbrev pub right_sum : Bytes → Bytes → Bytes → Bool
right_sum key d s = bytes_beq s (checksum d)

abbrev pub by_sum : ℕ → Bytes → Bytes → Bool
by_sum e d s = bytes_beq s (checksum d)

abbrev pub record_key : BootstrapKey ℕ
record_key = record {
  prev_server = pos 0;
  shared_key = make 32;
  verification_key = 9 ∷ make 31;
  expanded_verification_key = none;
  next_server = pos 1;
  outgoing_shared_key = make 32;
  outgoing_verification_key = 8 ∷ make 31;
  expanded_outgoing_verification_key = none;
  used = false;
}

abbrev pub parser : OnionParser ℕ
parser = record {
  c = record { round = pos 1; layer = pos 0; num_layers = pos 2; my_id = pos 4 };
  count = 0;
  key_table = record {
    heap = record_key ∷ [];
    table = (9 ∷ make 31, 0) ∷ [];
    reverse_table = (8 ∷ make 31, 0) ∷ [];
  };
  reverse = false;
}

pub right : (d : Bytes) → bytes_beq (checksum d) (checksum d) ≡ true
right d = (bytes_beq_iff (checksum d) (checksum d)).1 refl

pub right_key :
    (d : Bytes) → signature_valid flip right_sum by_sum record_key false d (checksum d) ≡ true
unfolding signature_valid verify_with
right_key d = right d

envelope : Bytes
envelope =
    (9 ∷ make 31) ++ box flip (7 ∷ []) (make 32) checksum (nonce_bytes (pos 1) (pos 0) (pos 4))

envelope_sealed :
    seal_envelope flip
      (9 ∷ make 31)
      (7 ∷ [])
      (decryption_key flip right_sum by_sum record_key false)
      checksum
      (pos 1)
      (nonce_layer parser)
      (pos 4)
    ≡ ok envelope
unfolding envelope decryption_key nonce_layer
envelope_sealed =
    seal_envelope_lem flip (9 ∷ make 31) (7 ∷ []) (make 32) checksum (pos 1) (pos 0) (pos 4)
      flip-IsStreamCipher refl (omega arith) (λ d. refl)

pub known : find_key parser.key_table (9 ∷ make 31) false ≡ some 0
unfolding find_key lookup bytes_beq
known = refl

long : 16 ≤ length (decryption_key flip right_sum by_sum record_key false)
unfolding decryption_key
long = omega arith

authenticated_onion_parse-seal_envelope_example :
    authenticated_onion_parse flip right_sum by_sum parser envelope ≡ (
      record parser {
        count = 1;
        key_table = record parser.key_table { heap = set_used 0 true parser.key_table.heap };
      },
      ok (7 ∷ [], 0),
    )
authenticated_onion_parse-seal_envelope_example =
    authenticated_onion_parse-seal_envelope flip right_sum by_sum parser 0 record_key (9 ∷ make 31)
      (7 ∷ []) envelope checksum flip-IsStreamCipher refl long (λ d. refl) right_key known refl refl
      envelope_sealed

no_keys : parser.count ≡ used_keys parser.key_table.heap
unfolding used_keys
no_keys = refl

count-after_example :
    (after flip right_sum by_sum parser (envelope ∷ envelope ∷ [])).count
    ≡ used_keys (after flip right_sum by_sum parser (envelope ∷ envelope ∷ [])).key_table.heap
count-after_example = count-after flip right_sum by_sum parser (envelope ∷ envelope ∷ []) no_keys

-- A second path through the same server.
abbrev two_paths : OnionParser ℕ
two_paths = record parser {
  key_table = record {
    heap = record_key ∷ record_key ∷ [];
    table = (9 ∷ make 31, 0) ∷ (6 ∷ make 31, 1) ∷ [];
    reverse_table = [];
  };
}

second_envelope : Bytes
second_envelope =
    (6 ∷ make 31) ++ box flip (5 ∷ []) (make 32) checksum (nonce_bytes (pos 1) (pos 0) (pos 4))

second_envelope_sealed :
    seal_envelope flip
      (6 ∷ make 31)
      (5 ∷ [])
      (decryption_key flip right_sum by_sum record_key false)
      checksum
      (pos 1)
      (nonce_layer two_paths)
      (pos 4)
    ≡ ok second_envelope
unfolding second_envelope decryption_key nonce_layer
second_envelope_sealed =
    seal_envelope_lem flip (6 ∷ make 31) (5 ∷ []) (make 32) checksum (pos 1) (pos 0) (pos 4)
      flip-IsStreamCipher refl (omega arith) (λ d. refl)

knows_first : find_key two_paths.key_table (9 ∷ make 31) false ≡ some 0
unfolding find_key lookup bytes_beq
knows_first = refl

knows_second : find_key two_paths.key_table (6 ∷ make 31) false ≡ some 1
unfolding find_key lookup bytes_beq
knows_second = refl

two_paths-envelope : authenticated_onion_parse flip right_sum by_sum two_paths envelope ≡ (
  record two_paths {
    count = 1;
    key_table = record two_paths.key_table { heap = set_used 0 true two_paths.key_table.heap };
  },
  ok (7 ∷ [], 0),
)
unfolding nonce_layer
two_paths-envelope =
    authenticated_onion_parse-seal_envelope flip right_sum by_sum two_paths 0 record_key
      (9 ∷ make 31) (7 ∷ []) envelope checksum flip-IsStreamCipher refl long (λ d. refl) right_key
      knows_first refl refl envelope_sealed

second_accepted :
    (authenticated_onion_parse flip right_sum by_sum
      (after flip right_sum by_sum two_paths (envelope ∷ []))
      second_envelope).1
    ≡ ok (5 ∷ [], 1)
unfolding after set_used nonce_layer find_key
second_accepted =
    rw (after, two_paths-envelope)
      (ap (λ r. r.1)
        (authenticated_onion_parse-seal_envelope flip right_sum by_sum
          (record two_paths {
            count = 1;
            key_table = record two_paths.key_table {
              heap = set_used 0 true two_paths.key_table.heap;
            };
          })
          1 record_key (6 ∷ make 31) (5 ∷ []) second_envelope checksum flip-IsStreamCipher refl long
          (λ d. refl) right_key knows_second refl refl second_envelope_sealed))

onion_once_example : ◌≢◌ {A = ℕ} 0 1
onion_once_example =
    onion_once flip right_sum by_sum two_paths envelope second_envelope [] (7 ∷ []) (5 ∷ []) 0 1
      (ap (λ r. r.1) two_paths-envelope) second_accepted

abbrev router : LightningRouter
router = (pos 1, buffer_new 129 1) ∷ []

next_envelope : Bytes
next_envelope =
    (8 ∷ make 31) ++ box flip (3 ∷ []) (make 32) checksum (nonce_bytes (pos 1) (pos 1) (pos 1))

next_envelope_sealed :
    seal_envelope flip (8 ∷ make 31) (3 ∷ []) (make 32) checksum (pos 1) (pos 1) (pos 1)
    ≡ ok next_envelope
unfolding next_envelope
next_envelope_sealed =
    seal_envelope_lem flip (8 ∷ make 31) (3 ∷ []) (make 32) checksum (pos 1) (pos 1) (pos 1)
      flip-IsStreamCipher refl (omega arith) (λ d. refl)

to_next : lookup (pos 1) router ≡ some (buffer_new 129 1)
unfolding lookup
to_next = refl

authenticated_onion_pack-seal_envelope_example :
    authenticated_onion_pack router (drop 32 next_envelope) record_key false
    ≡ (write (buffer_new 129 1) next_envelope >>= λ buffer'. ok (insert (pos 1) buffer' router))
authenticated_onion_pack-seal_envelope_example =
    authenticated_onion_pack-seal_envelope flip router record_key (buffer_new 129 1) (3 ∷ [])
      (make 32) next_envelope checksum (pos 1) (pos 1) (pos 1) flip-IsStreamCipher refl
      (omega arith) (λ d. refl) next_envelope_sealed to_next
