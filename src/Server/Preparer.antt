-- ===== src/Server/Preparer.antt =====
-- server/prepareMessages/server.go and marshalling.go: the clients of a group, and the tokens that
-- they are given. A client's record is shared by a pointer, which is nil after a revocation:
-- the map holds `none` then. Tokens and signatures are parameters.
pub mod RoundTrip
pub mod Effects
pub mod Signing
pub mod Tokens
pub mod Submitting
pub mod Examples
use bmrng.Prelude.{
  ℕ, ◌+◌, ◌-◌, ◌*◌, ◌<◌, Bool, true, false, ◌==◌, ◌||◌, if◌then◌else◌, Option, none, some, List, [],
  ◌∷◌, length,
}
use bmrng.Prelude.Int.{ℤ, pos, negsuc, ltz, is_negative, int_eq, to_u64, from_u64}
use bmrng.Prelude.Assoc.{lookup, insert}
use bmrng.Prelude.Outcome.{
  Outcome, ok, err, panic, check, require, attempt, length_invalid, bad_metadata, signature,
  duplicate, client_not_found, ◌>>=◌, ◌>>◌,
}
use bmrng.Prelude.Bytes.{Bytes, make, slice}
use bmrng.Prelude.Pack.{put_le, get_le}
use bmrng.Crypto.Keys.{key_size, pack_key, interpret_key}
use bmrng.Network.Metadata.{Metadata}
use bmrng.Network.Message.{SignedMessage, get_signed_data, data_of}

pub record NewClientRequest : Type 0 where
  pub id : ℤ
  pub verification_key : Bytes

abbrev pub new_client_request_len : ℕ
new_client_request_len = 8 + key_size

-- `NewClientRequest.PackTo`.
unfoldable pub pack_client_request : NewClientRequest → Bytes → Outcome Bytes
pack_client_request t b = do
  check (length b == new_client_request_len)
  b₁ ← put_le 8 b 0 (to_u64 t.id)
  b₂ ← pack_key b₁ 8 (length b₁) t.verification_key
  ok b₂

-- `NewClientRequest.InterpretFrom`.
unfoldable pub interpret_client_request : Bytes → Outcome NewClientRequest
interpret_client_request b = do
  require (length b == new_client_request_len) length_invalid
  id ← get_le 8 b 0
  k ← slice b 8 (length b)
  key ← interpret_key k
  ok (record { id = from_u64 id; verification_key = key })

pub record PerClientInfo : Type 0 where
  pub signature_key : Bytes
  pub signed : ℤ
  pub submitted : Bool

pub record MessagePreparer : Type 0 where
  pub num_layers : ℤ
  pub clients : List (ℤ × Option PerClientInfo)

-- `NewMessagePreparer`.
unfoldable pub new : ℤ → MessagePreparer
new num_layers = record { num_layers = num_layers; clients = [] }

-- `p.Clients[id]`: nil for an unknown and for a revoked client.
abbrev pub or_nil : Option (Option PerClientInfo) → Option PerClientInfo
or_nil none = none
or_nil (some info) = info

unfoldable pub find : ℤ → List (ℤ × Option PerClientInfo) → Option PerClientInfo
find id clients = or_nil (lookup id clients)

unfoldable pub revoke_client : MessagePreparer → ℤ → MessagePreparer
revoke_client p id = record p { clients = insert id none p.clients }

module _ (verify_message : Bytes → Bytes → Bytes → Bool) where
  -- `ValidateSignature`.
  unfoldable pub validate_signature : Bytes → SignedMessage → Outcome Bool
  validate_signature key m = do (_, d) ← get_signed_data m; ok (verify_message key d m.signature)

  -- `RegisterClient` under the lock, with what the map has for the client.
  unfoldable pub register :
      MessagePreparer
      → NewClientRequest
      → Option PerClientInfo
      → MessagePreparer × Outcome (Unit {0})
  register p n (some info) = (p, err duplicate)
  register p n none =
      let info : PerClientInfo = record {
        signature_key = n.verification_key;
        signed = negsuc 0;
        submitted = false;
      } in
      (record p { clients = insert n.id (some info) p.clients }, ok tt)

  unfoldable pub register_client :
      MessagePreparer → SignedMessage → MessagePreparer × Outcome (Unit {0})
  unfolding register validate_signature
  register_client p m = attempt p (data_of m >>= interpret_client_request) λ n.
      attempt p (validate_signature n.verification_key m)
        λ valid. if valid then register p n (find n.id p.clients) else (p, err signature)

  -- `MarkSubmitted` with what the map has for the client.
  unfoldable pub mark_found :
      MessagePreparer
      → ℤ
      → SignedMessage
      → Option PerClientInfo
      → MessagePreparer × Outcome (Unit {0})
  unfolding validate_signature
  mark_found p id m none = (p, err client_not_found)
  mark_found p id m (some info) = attempt p (validate_signature info.signature_key m) λ valid.
      if valid
      then if info.submitted then (p, err duplicate) else (
        record p { clients = insert id (some (record info { submitted = true })) p.clients },
        ok tt,
      )
      else (p, err signature)

  unfoldable pub mark_submitted :
      MessagePreparer → ℤ → SignedMessage → MessagePreparer × Outcome (Unit {0})
  unfolding mark_found find
  mark_submitted p id m = mark_found p id m (find id p.clients)

-- A loop over the records; one that is nil ends it in a panic.
unfoldable pub each_client :
    (PerClientInfo → PerClientInfo)
    → List (ℤ × Option PerClientInfo)
    → Outcome (List (ℤ × Option PerClientInfo))
each_client f [] = ok []
each_client f ((id, none) ∷ rest) = panic
each_client f ((id, some info) ∷ rest) =
    each_client f rest >>= λ done. ok ((id, some (f info)) ∷ done)

unfoldable pub reset_signed : MessagePreparer → Outcome MessagePreparer
reset_signed p = each_client (λ info. record info { signed = negsuc 0 }) p.clients >>= λ clients.
    ok (record p { clients = clients })

unfoldable pub reset_submitted : MessagePreparer → Outcome MessagePreparer
reset_submitted p = each_client (λ info. record info { submitted = false }) p.clients >>= λ clients.
    ok (record p { clients = clients })

pub record TokenRequest (Token : Type 0) : Type 0 where
  pub id : ℤ
  pub token_request : Token

module _ {Token : Type 0} (token_len : ℕ) (interpret_token : Bytes → Outcome Token)
    (blind_sign : Token → Outcome Token) (respond : SignedMessage → Token → SignedMessage)
    (verify_message : Bytes → Bytes → Bytes → Bool) where
  -- `TokenRequest.InterpretFrom`.
  unfoldable pub interpret_token_request : Bytes → Outcome (TokenRequest Token)
  interpret_token_request b = do
    require (length b == 8 + token_len) length_invalid
    id ← get_le 8 b 0
    rest ← slice b 8 (length b)
    t ← interpret_token rest
    ok (record { id = from_u64 id; token_request = t })

  -- `HandleTokenRequest` once the client is found and its signature is checked: the token is signed,
  -- and handed out if the client has not had one for this layer or a later one.
  unfoldable pub sign_token :
      MessagePreparer
      → ℤ
      → PerClientInfo
      → SignedMessage
      → Token
      → MessagePreparer × Outcome SignedMessage
  sign_token p id info m t =
      let layer = m.metadata.layer in
      attempt p (blind_sign t) λ signed.
        if ltz info.signed layer
        then (
          record p { clients = insert id (some (record info { signed = layer })) p.clients },
          ok (respond m signed),
        )
        else (p, err duplicate)

  -- `HandleTokenRequest` with what the map has for the client.
  unfoldable pub token_found :
      MessagePreparer
      → SignedMessage
      → TokenRequest Token
      → Option PerClientInfo
      → MessagePreparer × Outcome SignedMessage
  unfolding sign_token
  token_found p m request none = (p, err client_not_found)
  token_found p m request (some info) =
      attempt p (validate_signature verify_message info.signature_key m) λ valid.
        if valid then sign_token p request.id info m request.token_request else (p, err signature)

  unfoldable pub handle_token_request :
      MessagePreparer → SignedMessage → MessagePreparer × Outcome SignedMessage
  unfolding token_found find
  handle_token_request p m = attempt p (data_of m >>= interpret_token_request) λ request.
      if is_negative m.metadata.layer || ltz p.num_layers m.metadata.layer
      then (p, err bad_metadata)
      else token_found p m request (find request.id p.clients)
