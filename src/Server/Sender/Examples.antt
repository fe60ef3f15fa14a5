-- ===== src/Server/Sender/Examples.antt =====
-- A sender with three receipts, two of them of a group of two servers.
use mathlib.Core.Option
use bmrng.Prelude.{
  ℕ, ◌≡◌, refl, ap, Bool, true, false, if◌then◌else◌, ◌==◌, none, some, List, [], ◌∷◌, ◌++◌, subst,
  arith,
}
use bmrng.Prelude.Int.{ℤ, pos, beq}
use bmrng.Prelude.Assoc.{bytes_eq, lookup, bytes_beq, bytes_beq_iff}
use bmrng.Network.Metadata.{Metadata}
use bmrng.Network.Metadata.RoundTrip.{header}
use bmrng.Network.Message.{SignedMessage, get_signed_data, data_of}
use bmrng.Network.Message.RoundTrip.{received, send-receive}
use bmrng.Prelude.Outcome.{Outcome, ok, attempt}
use bmrng.Prelude.Bytes.{Bytes, make}
use bmrng.Crypto.Dhkx.{additive_shares, shares_loop}
use bmrng.Crypto.Sealing.Opening.{nonce_bytes}
use bmrng.Crypto.Token.Examples.{bit_group, bit_group-IsGroup}
use bmrng.Server.Envelopes.Peeling.{box}
use bmrng.Server.Onion.Examples.{flip, flip-IsStreamCipher, checksum}
use bmrng.Server.Sender.{Progress, CheckpointSender, decrypt_group}
use bmrng.Server.Sender.Responses.{answer, handle_responses, AreSigned, one_signed, none_signed}
use bmrng.Server.Sender.Visiting.{IsDistinct, IsReady, visits, settled}
use bmrng.Server.Sender.Opening.{decrypt_group-handle_responses}

abbrev bit_bytes : Bool → Bytes
bit_bytes b = (if b then 1 else 0) ∷ make 31

abbrev read_bit : Bytes → Outcome Bool
read_bit [] = ok false
read_bit (b ∷ bs) = ok (b == 1)

read_bit-bit_bytes : (b : Bool) → read_bit (bit_bytes b) ≡ ok b
read_bit-bit_bytes true = refl
read_bit-bit_bytes false = refl

abbrev receipt_key : Bytes
receipt_key = 8 ∷ make 31

-- Sealed with what has been accumulated for it.
abbrev other_key : Bytes
other_key = 9 ∷ make 31

abbrev foreign_key : Bytes
foreign_key = 3 ∷ make 31

abbrev clients_message : Bytes → Bytes
clients_message l = if bytes_beq receipt_key l then 7 ∷ [] else 5 ∷ []

abbrev waiting : Progress Bool
waiting = record {
  boomerang = box flip (7 ∷ []) (bit_bytes true) checksum (nonce_bytes (pos 2) (pos 2) (pos 4));
  partial_key = false;
  group = pos 0;
  key = 0;
  used = false;
}

abbrev accumulated : Progress Bool
accumulated = record {
  boomerang = box flip (5 ∷ []) (bit_bytes true) checksum (nonce_bytes (pos 2) (pos 2) (pos 4));
  partial_key = true;
  group = pos 0;
  key = 1;
  used = false;
}

abbrev foreign : Progress Bool
foreign = record { boomerang = []; partial_key = false; group = pos 1; key = 2; used = false }

abbrev sender : CheckpointSender Bool
sender = record {
  c = record { round = pos 1; layer = pos 1; num_layers = pos 2; my_id = pos 4 };
  reverse_messages =
      (other_key, accumulated) ∷ (receipt_key, waiting) ∷ (foreign_key, foreign) ∷ [];
  to_group_buffers = [];
}

two_shares : additive_shares bit_group true 2 (λ _. true) ≡ ok (false ∷ true ∷ [])
unfolding additive_shares shares_loop
two_shares = refl

known : lookup receipt_key sender.reverse_messages ≡ some waiting
unfolding lookup bytes_beq
known = refl

abbrev order : List Bytes
order = other_key ∷ foreign_key ∷ receipt_key ∷ []

order_visits :
    (visits other_key (foreign_key ∷ receipt_key ∷ []) ≡ false)
    × (visits foreign_key (receipt_key ∷ []) ≡ false)
    × (visits receipt_key [] ≡ false)
unfolding visits bytes_beq
order_visits = (refl, refl, refl)

order-IsDistinct : IsDistinct order
unfolding IsDistinct
order-IsDistinct = (order_visits.0, (order_visits.1, (order_visits.2, tt)))

all_visited :
    (l : Bytes) (q : Progress Bool)
    → lookup l sender.reverse_messages ≡ some q
    → visits l order ≡ true
unfolding lookup visits
all_visited l q h =
    cases (bytes_beq other_key l) (bytes_beq receipt_key l) (bytes_beq foreign_key l) h
  where
    cases :
        (x y z : Bool)
        → (if x
            then some accumulated
            else if y
            then some waiting
            else if z
            then some foreign
            else none)
          ≡ some q
        → (if x then true else if z then true else if y then true else false) ≡ true
    cases true y z h = refl
    cases false true true h = refl
    cases false true false h = refl
    cases false false true h = refl
    cases false false false h = absurd (ground (arith, h))

-- The one other receipt of the group is ready.
all-IsReady :
    (l : Bytes) (q : Progress Bool)
    → bytes_beq receipt_key l ≡ false
    → lookup l sender.reverse_messages ≡ some q
    → beq q.group (pos 0) ≡ true
    → IsReady bit_group bit_bytes flip sender checksum (clients_message l) q
unfolding lookup
all-IsReady l q other h own =
    subst (IsReady bit_group bit_bytes flip sender checksum (clients_message l))
      (cases (bytes_beq other_key l) (bytes_beq receipt_key l) (bytes_beq foreign_key l) h other)
      (refl, rw other refl)
  where
    cases :
        (x y z : Bool)
        → (if x
            then some accumulated
            else if y
            then some waiting
            else if z
            then some foreign
            else none)
          ≡ some q
        → y ≡ false
        → accumulated ≡ q
    cases true y z h e = ap (λ o. elim o [ none ↦ accumulated | some v ↦ v ]) h
    cases false true z h e = absurd (ground (arith, e))
    cases false false true h e =
        absurd
          (ground (arith, own, ap (λ o. elim o [ none ↦ true | some v ↦ beq v.group (pos 0) ]) h))
    cases false false false h e = absurd (ground (arith, h))

-- The header of an answer.
abbrev from : ℕ → Metadata
from i = record {
  kind = pos 3;
  round = pos 12;
  layer = pos 2;
  sender = pos i;
  dest = pos 4;
  group = pos 0;
  num_messages = 1;
}

abbrev verify_sender : ℤ → Bytes → Bytes → Outcome Bool
verify_sender _ d s = ok (bytes_beq s (checksum d))

abbrev the_answer : Bool → Bytes
the_answer = answer bit_group bit_bytes read_bit receipt_key

abbrev answers : List SignedMessage
answers =
    received checksum (from 1) (the_answer false)
    ∷ received checksum (from 2) (the_answer true)
    ∷ []

sent :
    (i : ℕ) (q : Bool)
    → (data_of (received checksum (from i) (the_answer q)) ≡ ok (the_answer q))
      × (get_signed_data (received checksum (from i) (the_answer q))
          ≡ ok (received checksum (from i) (the_answer q), header (from i) ++ the_answer q))
sent i q = let (_, e, e') = send-receive checksum (from i) (the_answer q) (omega arith) in (e, e')

checked : (d : Bytes) → ◌≡◌ {A = Outcome Bool} (ok (bytes_beq d d)) (ok true)
checked d = ap ok ((bytes_beq_iff d d).1 refl)

answers-AreSigned : AreSigned verify_sender answers (the_answer false ∷ the_answer true ∷ [])
answers-AreSigned =
    one_signed (received checksum (from 1) (the_answer false)) (header (from 1) ++ the_answer false)
      (sent 1 false).1 (checked (checksum (header (from 1) ++ the_answer false))) (sent 1 false).0
      (one_signed (received checksum (from 2) (the_answer true))
        (header (from 2) ++ the_answer true) (sent 2 true).1
        (checked (checksum (header (from 2) ++ the_answer true))) (sent 2 true).0 none_signed)

decrypt_group-handle_responses_example :
    (m : List (Bytes × Progress Bool)) × ((let (s', r) =
          handle_responses bit_group bit_bytes read_bit verify_sender sender answers in
        attempt s' r λ _. decrypt_group bit_group bit_bytes flip s' (pos 0) order)
      ≡ (record sender { reverse_messages = m }, ok tt))
    × ((l : Bytes)
        → lookup l m ≡ (
            if bytes_beq receipt_key l
            then some (record waiting { partial_key = true; used = true; boomerang = 7 ∷ [] })
            else Option.map
                (settled (pos 0) (clients_message l))
                (lookup l sender.reverse_messages)))
unfolding bytes_beq
decrypt_group-handle_responses_example =
    decrypt_group-handle_responses bit_group bit_bytes flip bit_group-IsGroup read_bit verify_sender
      sender waiting receipt_key true 2 (λ _. true) (false ∷ true ∷ []) true answers order
      clients_message checksum flip-IsStreamCipher refl (λ q. refl) read_bit-bit_bytes (λ d. refl)
      known refl refl refl two_shares answers-AreSigned order-IsDistinct all_visited all-IsReady
