-- ===== src/Server/Sender.antt =====
-- server/processMessages/checkpointSender.go and the codecs it uses of server/checkpoint/marshalling.go:
-- the receipts of the last layer, which the anytrust groups help to decrypt. A progress is reached
-- through the map only, except for the key, a pointer into the key table.
pub mod Responses
pub mod Visiting
pub mod Opening
pub mod Examples
use bmrng.Prelude.{
  ℕ, zero, suc, ◌+◌, ltb, ◌==◌, Bool, true, false, if◌then◌else◌, Option, none, some, List, [], ◌∷◌,
  length, map,
}
use bmrng.Prelude.Int.{ℤ, int_eq, beq}
use bmrng.Prelude.Assoc.{bytes_eq, lookup, insert}
use bmrng.Prelude.Outcome.{
  Outcome, ok, err, panic, signature, check, require, attempt, length_invalid, duplicate, ◌>>=◌,
  ◌>>◌,
}
use bmrng.Prelude.Bytes.{Bytes, make, slice, copy_at}
use bmrng.Crypto.Dhkx.{Group}
use bmrng.Crypto.Keys.{key_size, lookup_key, pack_key}
use bmrng.Crypto.Sealing.{nonce, secret_open}
use bmrng.Network.Buffer.{MemReadWriter, write}
use bmrng.Network.Message.{SignedMessage, get_signed_data, data_of}
use bmrng.Server.Checkpoint.{CheckpointInfo, response_length}
use bmrng.Server.Onion.{Position, LightningRouter}
use bmrng.Server.Routers.{Links, make_buffers}

module _ {Token : Type 0} (token_size : ℕ) (token_bytes : Token → Bytes) where
  -- `CheckpointInfo.PackTo`.
  unfoldable pub pack_checkpoint_info : CheckpointInfo Token → Bytes → Outcome Bytes
  pack_checkpoint_info c b = do
    check (length b == token_size + key_size)
    b₁ ← pack_key b 0 key_size c.anonymous_verification_key
    copy_at b₁ key_size (length b₁) (token_bytes c.token)

  -- `CheckpointInfo.Marshal`.
  unfoldable pub marshal_checkpoint_info : CheckpointInfo Token → Outcome Bytes
  unfolding pack_checkpoint_info
  marshal_checkpoint_info c = pack_checkpoint_info c (make (token_size + key_size))

-- `CheckpointResponse.InterpretFrom`: the lookup key and the point.
unfoldable pub interpret_response :
    {Point : Type 0} → (Bytes → Outcome Point) → Bytes → Outcome (Bytes × Point)
interpret_response interpret_point b = do
  require (length b == response_length) length_invalid
  k ← slice b 0 key_size
  public_key ← copy_at (make key_size) 0 key_size k
  rest ← slice b key_size (length b)
  partial_key ← interpret_point rest
  ok (public_key, partial_key)

pub record Progress (Point : Type 0) : Type 0 where
  pub boomerang : Bytes
  pub partial_key : Point
  pub group : ℤ
  pub key : ℕ
  pub used : Bool

pub record CheckpointSender (Point : Type 0) : Type 0 where
  pub c : Position
  pub reverse_messages : List (Bytes × Progress Point)
  pub to_group_buffers : LightningRouter

module _ {Scalar Point : Type 0} (g : Group Scalar Point) where
  -- `NewCheckpointSender`.
  unfoldable pub new : Position → Links → ℕ → CheckpointSender Point
  unfolding make_buffers
  new c links token_size = record {
    c = c;
    reverse_messages = [];
    to_group_buffers =
        make_buffers links.num_groups 0 (token_size + key_size) links.group_bin_size [];
  }

  -- `AddReverseMessage`.
  unfoldable pub add_reverse_message :
      {Token : Type 0}
      → ℕ
      → (Token → Bytes)
      → CheckpointSender Point
      → Bytes
      → CheckpointInfo Token
      → ℕ
      → ℤ
      → Outcome (CheckpointSender Point)
  add_reverse_message token_size token_bytes s boomerang info key group = do
    b ← marshal_checkpoint_info token_size token_bytes info
    buffer ← elim (lookup group s.to_group_buffers) [ none ↦ panic | some buffer ↦ ok buffer ]
    buffer' ← write buffer b
    l ← lookup_key info.anonymous_verification_key
    ok (record s {
      to_group_buffers = insert group buffer' s.to_group_buffers;
      reverse_messages =
          insert l
            (record {
              boomerang = boomerang;
              partial_key = g.identity;
              group = group;
              key = key;
              used = false;
            })
            s.reverse_messages;
    })

  -- One response: its point is accumulated, through the pointer that the map has. A key that is not in
  -- the map is a nil pointer.
  unfoldable pub accumulate_one :
      CheckpointSender Point → Bytes × Point → Outcome (CheckpointSender Point)
  accumulate_one s (l, q) = elim (lookup l s.reverse_messages) [
    | none ↦ panic
    | some p ↦ ok (record s {
      reverse_messages =
          insert l (record p { partial_key = g.add_points p.partial_key q }) s.reverse_messages;
    })
  ]

  module _ (interpret_point : Bytes → Outcome Point) where
    -- The loop of `HandleResponse`, from `pos` on. Each round reads one response, so the length of the
    -- data is enough fuel.
    unfoldable pub response_loop :
        ℕ → CheckpointSender Point → Bytes → ℕ → CheckpointSender Point × Outcome (Unit {0})
    unfolding accumulate_one interpret_response
    response_loop zero s d pos = (s, ok tt)
    response_loop (suc fuel) s d pos = elim (ltb pos (length d)) [
      | true ↦
          attempt s
            (slice d pos (pos + response_length) >>= λ b.
              interpret_response interpret_point b >>= accumulate_one s)
            λ s'. response_loop fuel s' d (pos + response_length)
      | false ↦ (s, ok tt)
    ]

    -- `HandleResponse`; `verify_sender` checks a signature with the key of a server.
    unfoldable pub handle_response :
        (ℤ → Bytes → Bytes → Outcome Bool)
        → CheckpointSender Point
        → SignedMessage
        → CheckpointSender Point × Outcome (Unit {0})
    unfolding response_loop
    handle_response verify_sender s sm =
        attempt s
          (get_signed_data sm >>= λ (sm', d).
            verify_sender sm'.metadata.sender d sm'.signature >>= λ valid.
            require valid signature >> data_of sm')
          λ d. response_loop (length d) s d 0

  module _ (point_bytes : Point → Bytes) (xor_key_stream : Bytes → Bytes → Bytes → Bytes) where
    -- `HandleOne`, of the progress at the key `l`: the receipt is decrypted in place, once.
    unfoldable pub handle_one :
        CheckpointSender Point
        → Bytes
        → Progress Point
        → CheckpointSender Point × Outcome (Unit {0})
    handle_one s l p =
        attempt s
          (nonce s.c.num_layers s.c.num_layers s.c.my_id >>= λ n.
            secret_open xor_key_stream p.boomerang n (point_bytes p.partial_key))
          λ decrypted. if p.used then (s, err duplicate) else (
            record s {
              reverse_messages =
                  insert l (record p { used = true; boomerang = decrypted }) s.reverse_messages;
            },
            ok tt,
          )

    -- With what the map has for the key; of another group, it is passed over.
    unfoldable pub decrypt_found :
        CheckpointSender Point
        → ℤ
        → Bytes
        → Option (Progress Point)
        → CheckpointSender Point × Outcome (Unit {0})
    unfolding handle_one
    decrypt_found s group l none = (s, ok tt)
    decrypt_found s group l (some p) = if beq p.group group then handle_one s l p else (s, ok tt)

    -- `DecryptGroup`, over the keys of the map in the order in which Go visits them.
    unfoldable pub decrypt_group :
        CheckpointSender Point → ℤ → List Bytes → CheckpointSender Point × Outcome (Unit {0})
    unfolding decrypt_found
    decrypt_group s group [] = (s, ok tt)
    decrypt_group s group (l ∷ order) =
        (let (s', r) = decrypt_found s group l (lookup l s.reverse_messages) in
          attempt s' r λ _. decrypt_group s' group order)

  -- `GetDecrypted`: the receipts, and the keys from path establishment.
  unfoldable pub get_decrypted : CheckpointSender Point → List Bytes × List ℕ
  get_decrypted s =
      (map (λ (l, p). p.boomerang) s.reverse_messages, map (λ (l, p). p.key) s.reverse_messages)
