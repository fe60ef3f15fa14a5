-- ===== src/Server/Preparer/Examples.antt =====
-- A preparer with one client.
use bmrng.Prelude.{ℕ, ◌+◌, ◌≡◌, ◌≢◌, refl, Bool, true, false, some, [], ◌∷◌, ◌++◌}
use bmrng.Prelude.Int.{ℤ, pos, negsuc}
use bmrng.Prelude.Assoc.{lookup}
use bmrng.Prelude.Outcome.{Outcome, ok, panic, Failure, fail, ◌>>=◌}
use bmrng.Prelude.Bytes.{Bytes, make, slice, copy_at, le_value, le_bytes}
use bmrng.Prelude.Pack.{get_le, put_le}
use bmrng.Network.Metadata.{pack_to}
use bmrng.Network.Message.{SignedMessage, data_of, get_signed_data}
use bmrng.Server.Preparer.{
  NewClientRequest, MessagePreparer, TokenRequest, find, revoke_client, reset_signed,
  reset_submitted, interpret_token_request, handle_token_request, token_found, sign_token,
  validate_signature,
}
use bmrng.Server.Preparer.Submitting.{has_nil, reset-revoke_client}
use bmrng.Server.Preparer.Tokens.{start, after_revoke, token_once}

abbrev enrolment : NewClientRequest
enrolment = record { id = negsuc 4; verification_key = 7 ∷ make 31 }

abbrev one_client : MessagePreparer
one_client = record {
  num_layers = pos 3;
  clients =
      (pos 5, some (record { signature_key = 7 ∷ make 31; signed = negsuc 0; submitted = true }))
      ∷ [];
}

reset-revoke_client_example :
    (reset_submitted (revoke_client one_client (pos 5)) ≡ panic)
    × (reset_signed (revoke_client one_client (pos 5)) ≡ panic)
reset-revoke_client_example = reset-revoke_client one_client (pos 5)

one_client-has_nil : has_nil one_client.clients ≡ false
unfolding has_nil
one_client-has_nil = refl

-- A token is a number in one byte, and is signed by adding one.
abbrev interpret_byte : Bytes → Outcome ℕ
interpret_byte b = ok (le_value b)

abbrev add_one : ℕ → Outcome ℕ
add_one t = ok (t + 1)

abbrev echo : SignedMessage → ℕ → SignedMessage
echo m t = record m { signature = t ∷ [] }

abbrev anybody : Bytes → Bytes → Bytes → Bool
anybody key message signature = true

abbrev token_message : ℤ → SignedMessage
token_message layer = record {
  metadata = record {
    kind = pos 0;
    round = pos 1;
    layer = layer;
    sender = pos 0;
    dest = pos 0;
    group = pos 0;
    num_messages = 1;
  };
  raw = make 28 ++ 5 ∷ 0 ∷ 0 ∷ 0 ∷ 0 ∷ 0 ∷ 0 ∷ 0 ∷ 41 ∷ [];
  data_len = 9;
  signature = [];
}

abbrev request : TokenRequest ℕ
request = record { id = pos 5; token_request = 41 }

request_lem :
    (layer : ℤ)
    → (data_of (token_message layer)
        >>= interpret_token_request 1 interpret_byte add_one echo anybody)
      ≡ ok request
unfolding data_of interpret_token_request slice get_le le_value
request_lem layer = refl

given :
    (handle_token_request 1 interpret_byte add_one echo anybody one_client
      (token_message (pos 2))).1
    ≡ ok (echo (token_message (pos 2)) 42)
unfolding handle_token_request token_found sign_token validate_signature get_signed_data pack_to
    copy_at put_le le_bytes data_of interpret_token_request slice get_le le_value find lookup
given = refl

pos-five-two : pos 2 ≢ pos 5
pos-five-two e = cc

token_once_example :
    let p =
      (handle_token_request 1 interpret_byte add_one echo anybody one_client
        (token_message (pos 2))).0 in
    (f : Failure) × (handle_token_request 1 interpret_byte add_one echo anybody
        (revoke_client p (pos 2))
        (token_message (pos 1))
      ≡ (revoke_client p (pos 2), fail f))
token_once_example =
    token_once 1 interpret_byte add_one echo anybody one_client _ (token_message (pos 2))
      (token_message (pos 1)) request request (echo (token_message (pos 2)) 42)
      (request_lem (pos 2)) (request_lem (pos 1)) refl refl given
      (after_revoke start (pos 2) pos-five-two)
