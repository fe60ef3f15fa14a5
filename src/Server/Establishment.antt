-- ===== src/Server/Establishment.antt =====
-- server/processMessages/pathEstablishment.go: the parser that sets up the paths of clients, and
-- `HashToServer` and `HashToGroup` of server/common/commonState.go. Tokens, points, the stream cipher
-- and signatures are parameters.
pub mod Checking
pub mod Recording
pub mod Examples
use bmrng.Prelude.{
  ℕ, zero, suc, ◌+◌, ◌%◌, Bool, true, false, ◌==◌, ◌&&◌, leb, if◌then◌else◌, Option, none, some,
  List, [], ◌∷◌, length, take, get_elem?, not,
}
use bmrng.Prelude.Int.{ℤ, pos, to_u64, int_eq}
use bmrng.Prelude.Int as Int
use bmrng.Prelude.Assoc.{lookup, insert}
use bmrng.Prelude.Outcome.{
  Outcome, ok, err, panic, check, require, attempt, bad_element, token_invalid, wrong_server,
  decryption_failure, ◌>>=◌, ◌>>◌,
}
use bmrng.Prelude.Bytes.{Bytes, le_value}
use bmrng.Crypto.Dhkx.{Group}
use bmrng.Crypto.Keys.{key_size}
use bmrng.Crypto.Sealing.{nonce, secret_open}
use bmrng.Network.Buffer.{write}
use bmrng.Server.Checkpoint.{CheckpointInfo}
use bmrng.Server.Envelopes.{token_content}
use bmrng.Server.KeyTable.{BootstrapKey, KeyLookupTable, add_key}
use bmrng.Server.Onion.{Position, LightningRouter}
use bmrng.Server.Paths.{
  PathEstablishmentEnvelope, PathEstablishmentInfo, marshal_path, interpret_path, interpret_info,
  path_signed_data, path_signature, info_signed_data, info_signature,
}
use bmrng.Server.Routers.{Links, at, make_buffers}
use bmrng.Server.Sender.{CheckpointSender, add_reverse_message}

pub record PathEstablishmentParser (Expanded Point : Type 0) : Type 0 where
  pub c : Position
  pub links : Links
  pub table : KeyLookupTable Expanded
  pub layer : ℕ
  pub outgoing_buffers : LightningRouter
  pub checkpoint : Option (CheckpointSender Point)

-- `HashToServer` and `HashToGroup`; division by zero panics.
unfoldable pub hash_to : Bytes → ℕ → Outcome ℕ
hash_to hash n = if n == 0 then panic else ok (le_value (take 8 hash) % n)

-- `NewPathEstablishmentParser`.
unfoldable pub new :
    {Expanded Point : Type 0}
    → Position
    → Links
    → KeyLookupTable Expanded
    → ℕ
    → Option (CheckpointSender Point)
    → Outcome (PathEstablishmentParser Expanded Point)
unfolding make_buffers
new c links table layer (some s) = ok (record {
  c = c;
  links = links;
  table = table;
  layer = layer;
  outgoing_buffers = [];
  checkpoint = some s;
})
new c links table layer none = do
  n ← if leb links.num_servers 0 then ok 0 else at links.path_message_lengths (layer + 1)
  ok (record {
    c = c;
    links = links;
    table = table;
    layer = layer;
    outgoing_buffers = make_buffers links.num_servers 0 n links.bin_size [];
    checkpoint = none;
  })

-- `key.NextServer = next` through the pointer.
unfoldable pub set_next :
    {Expanded : Type 0} → ℕ → ℤ → List (BootstrapKey Expanded) → List (BootstrapKey Expanded)
set_next i next [] = []
set_next zero next (k ∷ heap) = record k { next_server = next } ∷ heap
set_next (suc i) next (k ∷ heap) = k ∷ set_next i next heap

module _ {Expanded Scalar Point Token : Type 0} (g : Group Scalar Point) (token_size : ℕ)
    (token_bytes : Token → Bytes) (no_token : Token) (interpret_token : Bytes → Outcome Token)
    (verify_token : Token → Bytes → Bool) (token_hash : Token → Bytes)
    (to_curve_point : Bytes → Option Point) (agree : Point → Bytes) (pre_expand_keys : Bool)
    (expand_key : Bytes → Outcome Expanded) (xor_key_stream : Bytes → Bytes → Bytes → Bytes)
    (verify : Bytes → Bytes → Bytes → Bool) where
  -- `VerifyToken`, and the error that the parser makes of it.
  unfoldable pub require_token : Token → ℤ → ℤ → ℤ → Bytes → Outcome (Unit {0})
  require_token t round layer server key = do
    content ← token_content key round layer server
    require (verify_token t content) token_invalid

  -- The envelope with its checks: what the envelope was, the shared key, and what is inside.
  unfoldable pub open_path :
      PathEstablishmentParser Expanded Point
      → ℤ
      → Bytes
      → Outcome (PathEstablishmentEnvelope Token × Bytes × PathEstablishmentInfo Token)
  unfolding require_token
  open_path p source message = do
    boomerang_length ← at p.links.boomerang_message_lengths p.layer
    n ← nonce p.c.round p.c.layer p.c.my_id
    pm ← interpret_path token_size no_token interpret_token message
    require_token pm.in_token p.c.round p.c.round source pm.in_key
    here ← hash_to (token_hash pm.in_token) p.links.num_servers
    require (here == to_u64 p.c.my_id) wrong_server
    in_point ← elim (to_curve_point pm.in_key) [ none ↦ err bad_element | some pt ↦ ok pt ]
    let shared_key = agree in_point
    (pm', d) ← path_signed_data token_size no_token interpret_token p.c.round p.c.layer p.c.my_id pm
    s ← path_signature token_size no_token interpret_token pm'
    require (verify pm'.in_key d s) decryption_failure
    decrypted ← secret_open xor_key_stream pm'.signed_ciphertext n shared_key
    pi ← interpret_info token_size no_token interpret_token decrypted boomerang_length
    ok (pm', shared_key, pi)

  -- The token of the next link, and where it leads.
  unfoldable pub next_link :
      PathEstablishmentParser Expanded Point → PathEstablishmentInfo Token → Outcome ℕ
  unfolding require_token
  next_link p pi = do
    require_token pi.out_token (Int.add p.c.round (pos 1)) (Int.add p.c.round (pos 1)) p.c.my_id
        pi.out_key
    hash_to (token_hash pi.out_token) p.links.num_servers

  -- Between layers: the next envelope is written for the next server.
  unfoldable pub forward_next :
      PathEstablishmentParser Expanded Point
      → PathEstablishmentInfo Token
      → ℕ
      → Outcome (PathEstablishmentParser Expanded Point)
  forward_next p pi next = do
    b ← marshal_path token_size token_bytes (record {
      in_key = pi.out_key;
      in_token = pi.out_token;
      signed_ciphertext = pi.next_envelope;
      raw = [];
    })
    buffer ← elim (lookup (pos next) p.outgoing_buffers) [ none ↦ panic | some buffer ↦ ok buffer ]
    buffer' ← write buffer b
    ok (record p { outgoing_buffers = insert (pos next) buffer' p.outgoing_buffers })

  -- The signature that the anytrust group will see. `signedData` is a window of `raw`; the arguments
  -- of `DebugPrint` write over it before it is verified, so what is verified is the second window.
  unfoldable pub check_receipt :
      PathEstablishmentParser Expanded Point → PathEstablishmentInfo Token → Outcome (Unit {0})
  check_receipt p pi = do
    (pi₁, window) ←
        info_signed_data token_size no_token interpret_token p.c.round p.c.layer p.c.my_id pi
    s ← info_signature token_size no_token interpret_token pi₁
    (pi₂, signed_data) ←
        info_signed_data token_size no_token interpret_token p.c.num_layers p.c.num_layers p.c.my_id
          pi₁
    require (verify pi₂.out_key signed_data s) decryption_failure

  -- At the last layer: the receipt waits for the anytrust group of the token's hash.
  unfoldable pub forward_group :
      PathEstablishmentParser Expanded Point
      → CheckpointSender Point
      → PathEstablishmentInfo Token
      → ℕ
      → PathEstablishmentParser Expanded Point × Outcome (Unit {0})
  unfolding check_receipt set_next
  forward_group p s pi key =
      attempt p (hash_to (token_hash pi.out_token) p.links.num_groups) λ group.
        let p' = record p {
          table = record p.table { heap = set_next key (pos group) p.table.heap };
        } in
        attempt p' (check_receipt p' pi) λ _.
          attempt p'
            (add_reverse_message g token_size token_bytes s pi.boomerang_envelope
              (record { anonymous_verification_key = pi.out_key; token = pi.out_token }) key
              (pos group))
            λ s'. (record p' { checkpoint = some s' }, ok tt)

  -- Either, and the receipt and the key that are returned.
  unfoldable pub forward :
      PathEstablishmentParser Expanded Point
      → Option (CheckpointSender Point)
      → PathEstablishmentInfo Token
      → ℕ
      → ℕ
      → PathEstablishmentParser Expanded Point × Outcome (Bytes × ℕ)
  unfolding forward_next forward_group
  forward p none pi next key =
      attempt p (forward_next p pi next) λ p'. (p', ok (pi.boomerang_envelope, key))
  forward p (some s) pi next key =
      (let (p', r) = forward_group p s pi key in
        attempt p' r λ _. (p', ok (pi.boomerang_envelope, key)))

  -- `AddKey`, whose errors become one.
  unfoldable pub as_bad_element : {A : Type 0} → Outcome A → Outcome A
  as_bad_element (ok a) = ok a
  as_bad_element (err why) = err bad_element
  as_bad_element panic = panic

  -- `ParseRecordAndGetNext`, of a message from the server `source`.
  unfoldable pub parse_record_and_get_next :
      PathEstablishmentParser Expanded Point
      → ℤ
      → Bytes
      → PathEstablishmentParser Expanded Point × Outcome (Bytes × ℕ)
  unfolding open_path next_link as_bad_element forward
  parse_record_and_get_next p source message =
      attempt p (open_path p source message) λ (pm, shared_key, pi).
        attempt p (next_link p pi) λ next.
          attempt p
            (as_bad_element (
              add_key pre_expand_keys to_curve_point agree expand_key p.table pm.in_key shared_key
                source (pos next) pi.out_key))
            λ (table, key). forward (record p { table = table }) p.checkpoint pi next key
