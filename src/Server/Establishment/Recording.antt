-- ===== src/Server/Establishment/Recording.antt =====
-- What a message of path establishment leaves behind: the key of its path, and the next message.
use bmrng.Prelude.{
  ℕ, ◌≤◌, ◌≡◌, ◌≢◌, ◌∙◌, Bool, true, false, none, some, Option, [], ◌++◌, length, get_elem?,
}
use bmrng.Prelude.Int.{ℤ, pos, to_u64, int_eq, add}
use bmrng.Prelude.Assoc.{lookup, insert}
use bmrng.Prelude.Outcome.{Outcome, ok}
use bmrng.Prelude.Bytes.{Bytes}
use bmrng.Crypto.Dhkx.{Group}
use bmrng.Crypto.Keys.{key_size}
use bmrng.Crypto.Sealing.{symmetric_key_size, overhead}
use bmrng.Crypto.Sealing.Opening.{IsStreamCipher, nonce_bytes}
use bmrng.Network.Buffer.{MemReadWriter, write}
use bmrng.Server.Envelopes.Peeling.{box}
use bmrng.Server.KeyTable.{KeyLookupTable, find_key, expand, add_key}
use bmrng.Server.KeyTable.Adding.{add_key_lem}
use bmrng.Server.Paths.{PathEstablishmentInfo}
use bmrng.Server.Paths.RoundTrip.{marshal_path_lem}
use bmrng.Server.Routers.{at}
use bmrng.Server.Establishment.{
  PathEstablishmentParser, hash_to, open_path, next_link, forward_next, forward, as_bad_element,
  parse_record_and_get_next,
}
use bmrng.Server.Establishment.Checking.{IsTokenValid, open_path-box}

module _ {Expanded Scalar Point Token : Type 0} (g : Group Scalar Point) (token_size : ℕ)
    (token_bytes : Token → Bytes) (no_token : Token) (interpret_token : Bytes → Outcome Token)
    (verify_token : Token → Bytes → Bool) (token_hash : Token → Bytes)
    (to_curve_point : Bytes → Option Point) (agree : Point → Bytes) (pre_expand_keys : Bool)
    (expand_key : Bytes → Outcome Expanded) (xor_key_stream : Bytes → Bytes → Bytes → Bytes)
    (verify : Bytes → Bytes → Bytes → Bool) where
  next_link_lem :
      (p : PathEstablishmentParser Expanded Point) (pi : PathEstablishmentInfo Token) (next : ℕ)
      → IsTokenValid {Expanded = Expanded} g token_size token_bytes no_token interpret_token
          verify_token token_hash to_curve_point agree pre_expand_keys expand_key xor_key_stream
          verify pi.out_token
          (add p.c.round (pos 1))
          (add p.c.round (pos 1))
          p.c.my_id
          pi.out_key
      → hash_to (token_hash pi.out_token) p.links.num_servers ≡ ok next
      → next_link g token_size token_bytes no_token interpret_token verify_token token_hash
          to_curve_point agree pre_expand_keys expand_key xor_key_stream verify p pi
        ≡ ok next
  unfolding next_link
  next_link_lem p pi next token leads = rw (token, leads)

  forward_lem :
      (p : PathEstablishmentParser Expanded Point) (pi : PathEstablishmentInfo Token) (next key : ℕ)
      (buffer buffer' : MemReadWriter)
      → length pi.out_key ≡ key_size
      → length (token_bytes pi.out_token) ≡ token_size
      → lookup (pos next) p.outgoing_buffers ≡ some buffer
      → write buffer (pi.out_key ++ (token_bytes pi.out_token ++ pi.next_envelope)) ≡ ok buffer'
      → forward g token_size token_bytes no_token interpret_token verify_token token_hash
          to_curve_point agree pre_expand_keys expand_key xor_key_stream verify p none pi next key
        ≡ (
          record p { outgoing_buffers = insert (pos next) buffer' p.outgoing_buffers },
          ok (pi.boomerang_envelope, key),
        )
  unfolding forward forward_next
  forward_lem p pi next key buffer buffer' lk lt known written = rw (
    marshal_path_lem token_size token_bytes
        (record {
          in_key = pi.out_key;
          in_token = pi.out_token;
          signed_ciphertext = pi.next_envelope;
          raw = [];
        })
        lk lt,
    known,
    written,
  )

  recorded :
      (p : PathEstablishmentParser Expanded Point) (source : ℤ) (message : Bytes) {pm : _}
      (shared_key : Bytes) (pi : PathEstablishmentInfo Token) (next : ℕ)
      (u : KeyLookupTable Expanded) (key : ℕ)
      → open_path g token_size token_bytes no_token interpret_token verify_token token_hash
          to_curve_point agree pre_expand_keys expand_key xor_key_stream verify p source message
        ≡ ok (pm, shared_key, pi)
      → next_link g token_size token_bytes no_token interpret_token verify_token token_hash
          to_curve_point agree pre_expand_keys expand_key xor_key_stream verify p pi
        ≡ ok next
      → add_key pre_expand_keys to_curve_point agree expand_key p.table pm.in_key shared_key source
          (pos next)
          pi.out_key
        ≡ ok (u, key)
      → parse_record_and_get_next g token_size token_bytes no_token interpret_token verify_token
          token_hash to_curve_point agree pre_expand_keys expand_key xor_key_stream verify p source
          message
        ≡ forward g token_size token_bytes no_token interpret_token verify_token token_hash
            to_curve_point agree pre_expand_keys expand_key xor_key_stream verify
            (record p { table = u })
            p.checkpoint
            pi
            next
            key
  unfolding parse_record_and_get_next as_bad_element
  recorded p source message shared_key pi next u key opened linked added =
      rw (opened, linked, added)

  -- A path is set up. Let a message be made by a client as `open_path-box` has it, at a layer that is
  -- not the last, let the outgoing token be valid for the next round and for this server and lead to
  -- the server `next`, the outgoing key be a point, the incoming key expand, and the buffer of `next`
  -- have room. Then the parser returns the receipt and the new record of the path, which the incoming
  -- key leads to, with the servers before and after and the shared keys of the two links; other
  -- incoming keys lead where they did; and the buffer of `next` gets the outgoing key, the outgoing
  -- token and the next envelope, which is the message that the client made for `next`.
  pub parse_record_and_get_next-box :
      (p : PathEstablishmentParser Expanded Point) (source : ℤ) (k k' x y : Bytes) (t t' : Token)
      (signer : Bytes → Bytes) (here next : ℕ) (pt pt' : Point) (e : Option Expanded)
      (buffer buffer' : MemReadWriter)
      → IsStreamCipher xor_key_stream
      → length k ≡ key_size
      → length k' ≡ key_size
      → ((u : Token) → length (token_bytes u) ≡ token_size)
      → ((u : Token) → interpret_token (token_bytes u) ≡ ok u)
      → ((d : Bytes) → length (signer d) ≡ overhead)
      → symmetric_key_size ≤ length (agree pt)
      → ((d : Bytes) → verify k d (signer d) ≡ true)
      → at p.links.boomerang_message_lengths p.layer ≡ ok (length x)
      → IsTokenValid {Expanded = Expanded} g token_size token_bytes no_token interpret_token
          verify_token token_hash to_curve_point agree pre_expand_keys expand_key xor_key_stream
          verify t p.c.round p.c.round source k
      → IsTokenValid {Expanded = Expanded} g token_size token_bytes no_token interpret_token
          verify_token token_hash to_curve_point agree pre_expand_keys expand_key xor_key_stream
          verify t'
          (add p.c.round (pos 1))
          (add p.c.round (pos 1))
          p.c.my_id
          k'
      → hash_to (token_hash t) p.links.num_servers ≡ ok here
      → here ≡ to_u64 p.c.my_id
      → hash_to (token_hash t') p.links.num_servers ≡ ok next
      → to_curve_point k ≡ some pt
      → to_curve_point k' ≡ some pt'
      → expand pre_expand_keys to_curve_point agree expand_key k ≡ ok e
      → p.checkpoint ≡ none
      → lookup (pos next) p.outgoing_buffers ≡ some buffer
      → write buffer (k' ++ (token_bytes t' ++ y)) ≡ ok buffer'
      → let message =
          k
          ++ (token_bytes t
              ++ box xor_key_stream
                  (k' ++ (token_bytes t' ++ (x ++ y)))
                  (agree pt)
                  signer
                  (nonce_bytes p.c.round p.c.layer p.c.my_id)) in
        (u : KeyLookupTable Expanded) × (parse_record_and_get_next g token_size token_bytes no_token
            interpret_token verify_token token_hash to_curve_point agree pre_expand_keys expand_key
            xor_key_stream verify p source message
          ≡ (
            record p { table = u; outgoing_buffers = insert (pos next) buffer' p.outgoing_buffers },
            ok (x, length p.table.heap),
          ))
        × (find_key u k false ≡ some (length p.table.heap))
        × (get_elem? u.heap (length p.table.heap)
            ≡ some (record {
              prev_server = source;
              shared_key = agree pt;
              verification_key = k;
              expanded_verification_key = e;
              next_server = pos next;
              outgoing_shared_key = agree pt';
              outgoing_verification_key = k';
              expanded_outgoing_verification_key = none;
              used = false;
            }))
        × ((other : Bytes) → k ≢ other → find_key u other false ≡ find_key p.table other false)
  parse_record_and_get_next-box p source k k' x y t t' signer here next pt pt' e buffer buffer'
        cipher lk lk' lt codec sig lp valid len token token' leads me leads' point point' expanded
        between known written =
      let (pm, in_key, opened) =
        open_path-box g token_size token_bytes no_token interpret_token verify_token token_hash
          to_curve_point agree pre_expand_keys expand_key xor_key_stream verify p source k k' x y t
          t' signer here pt cipher lk lk' lt codec sig lp valid len token leads me point in
      let pi : PathEstablishmentInfo Token = record {
        out_key = k';
        out_token = t';
        boomerang_envelope = x;
        next_envelope = y;
        raw = k' ++ (token_bytes t' ++ (x ++ y));
      } in
      let (u, added, found, reversed, new_record, others) =
        add_key_lem pre_expand_keys to_curve_point agree expand_key p.table k (agree pt) source
          (pos next) k' pt' e lk lk' point' expanded in
      (
        u,
        recorded p source _ (agree pt) pi next u (length p.table.heap) opened
              (next_link_lem p pi next token' leads') (rw in_key added)
            ∙ rw between (
                forward_lem (record p { table = u; checkpoint = none }) pi next
                  (length p.table.heap) buffer buffer' lk' (lt t') known written),
        found,
        new_record,
        others,
      )
