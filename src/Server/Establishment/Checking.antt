-- ===== src/Server/Establishment/Checking.antt =====
-- What the parser of path messages checks of a message that a client made.
use mathlib.Core.List.{append_assoc}
use bmrng.Prelude.{
  ℕ, ◌+◌, ◌-◌, ◌≤◌, ◌≡◌, refl, sym, ap, ◌∙◌, Bool, true, some, Option, [], ◌++◌, length, take,
  ==_iff, length-append, length-take, arith,
}
use bmrng.Prelude.Int.{ℤ, to_u64}
use bmrng.Prelude.Outcome.{Outcome, ok, require, decryption_failure}
use bmrng.Prelude.Bytes.{Bytes}
use bmrng.Crypto.Dhkx.{Group}
use bmrng.Crypto.Keys.{key_size}
use bmrng.Crypto.Sealing.{symmetric_key_size, block_size, overhead, nonce_size, pack_signed_data}
use bmrng.Crypto.Sealing.Opening.{
  IsStreamCipher, encrypted, nonce_bytes, length-nonce_bytes, nonce_lem, read_signature-append,
  pack_signed_data-box, secret_open_lem,
}
use bmrng.Server.Envelopes.Peeling.{box}
use bmrng.Server.Paths.{
  PathEstablishmentEnvelope, path_signed_data, path_signature, info_signed_data, info_signature,
}
use bmrng.Server.Paths.RoundTrip.{interpret_path-append, interpret_info-append}
use bmrng.Server.Routers.{at}
use bmrng.Server.Establishment.{
  PathEstablishmentParser, hash_to, require_token, open_path, check_receipt,
}

-- The signed data behind two fields, of 24 bytes at least.
behind :
    (r l v : ℤ) (k t c s : Bytes) (offset : ℕ)
    → length k + length t ≡ offset
    → nonce_size ≤ offset
    → length s ≡ overhead
    → pack_signed_data r l v (k ++ (t ++ (c ++ s))) offset
      ≡ ok (take (offset - 24) (k ++ t) ++ (nonce_bytes r l v ++ (c ++ s)), nonce_bytes r l v ++ c)
behind r l v k t c s offset size long ls =
    ap (λ b. pack_signed_data r l v b offset) (sym (append_assoc k t (c ++ s)))
    ∙ rw (sum_of k t offset size)
        (pack_signed_data-box r l v (k ++ t) c s (omega (arith, length-append k t)) ls)
  where
    sum_of : (k t : Bytes) (offset : ℕ) → length k + length t ≡ offset → offset ≡ length (k ++ t)
    sum_of k t offset size = omega (arith, length-append k t)

module _ {Expanded Scalar Point Token : Type 0} (g : Group Scalar Point) (token_size : ℕ)
    (token_bytes : Token → Bytes) (no_token : Token) (interpret_token : Bytes → Outcome Token)
    (verify_token : Token → Bytes → Bool) (token_hash : Token → Bytes)
    (to_curve_point : Bytes → Option Point) (agree : Point → Bytes) (pre_expand_keys : Bool)
    (expand_key : Bytes → Outcome Expanded) (xor_key_stream : Bytes → Bytes → Bytes → Bytes)
    (verify : Bytes → Bytes → Bytes → Bool) where
  -- What the last layer verifies of a receipt. If the receipt is a ciphertext with a signature behind
  -- it, in a message without a next envelope, the parser accepts it exactly if the outgoing key
  -- verifies the signature on the ciphertext and the metadata of the number of layers, as the round
  -- and as the layer, and of this server. The parser's own round and layer have no part in it.
  pub check_receipt_lem :
      (p : PathEstablishmentParser Expanded Point) (k t c s : Bytes) (token : Token)
      → length k ≡ key_size
      → length t ≡ token_size
      → length s ≡ overhead
      → check_receipt g token_size token_bytes no_token interpret_token verify_token token_hash
          to_curve_point agree pre_expand_keys expand_key xor_key_stream verify p
          (record {
            out_key = k;
            out_token = token;
            boomerang_envelope = c ++ s;
            next_envelope = [];
            raw = k ++ (t ++ (c ++ s));
          })
        ≡ require
            (verify k (nonce_bytes p.c.num_layers p.c.num_layers p.c.my_id ++ c) s)
            decryption_failure
  unfolding check_receipt info_signed_data info_signature
  check_receipt_lem p k t c s token lk lt ls =
      let n = nonce_bytes p.c.round p.c.layer p.c.my_id in
      let ln = length-nonce_bytes p.c.round p.c.layer p.c.my_id in
      let pre = take (key_size + token_size - 24) (k ++ t) in
      rw (
        behind p.c.round p.c.layer p.c.my_id k t c s (key_size + token_size) (omega arith)
            (omega arith) ls,
        read_signature-append c s ls,
        behind p.c.num_layers p.c.num_layers p.c.my_id pre n c s (key_size + token_size)
            (omega (arith, length-take (key_size + token_size - 24) (k ++ t), length-append k t))
            (omega arith) ls,
      )

  -- The parser's own calls, with its parameters.
  abbrev pub IsTokenValid : Token → ℤ → ℤ → ℤ → Bytes → Type 0
  IsTokenValid t round layer server key =
      require_token g token_size token_bytes no_token interpret_token verify_token token_hash
        to_curve_point agree pre_expand_keys expand_key xor_key_stream verify t round layer server
        key
      ≡ ok tt

  -- A client's message passes the checks. Let a message be the incoming key and token of a path and
  -- the box that the client sealed for the parser's round, layer and server of an outgoing key and
  -- token, a receipt of the layer's length and a next envelope. If the incoming token is valid for
  -- the round and for the server that the message came from and leads to this server, the key is a
  -- point, and its signatures verify, then the parser finds the incoming key, the shared key, and
  -- all that the client put inside.
  pub open_path-box :
      (p : PathEstablishmentParser Expanded Point) (source : ℤ) (k k' x y : Bytes) (t t' : Token)
      (signer : Bytes → Bytes) (here : ℕ) (pt : Point)
      → IsStreamCipher xor_key_stream
      → length k ≡ key_size
      → length k' ≡ key_size
      → ((u : Token) → length (token_bytes u) ≡ token_size)
      → ((u : Token) → interpret_token (token_bytes u) ≡ ok u)
      → ((d : Bytes) → length (signer d) ≡ overhead)
      → symmetric_key_size ≤ length (agree pt)
      → ((d : Bytes) → verify k d (signer d) ≡ true)
      → at p.links.boomerang_message_lengths p.layer ≡ ok (length x)
      → IsTokenValid t p.c.round p.c.round source k
      → hash_to (token_hash t) p.links.num_servers ≡ ok here
      → here ≡ to_u64 p.c.my_id
      → to_curve_point k ≡ some pt
      → let inner = k' ++ (token_bytes t' ++ (x ++ y)) in
        let sealed =
          box xor_key_stream inner (agree pt) signer (nonce_bytes p.c.round p.c.layer p.c.my_id) in
        (pm : PathEstablishmentEnvelope Token) × (pm.in_key ≡ k)
        × (open_path g token_size token_bytes no_token interpret_token verify_token token_hash
              to_curve_point agree pre_expand_keys expand_key xor_key_stream verify p source
              (k ++ (token_bytes t ++ sealed))
            ≡ ok (
              pm,
              agree pt,
              record {
                out_key = k';
                out_token = t';
                boomerang_envelope = x;
                next_envelope = y;
                raw = inner;
              },
            ))
  unfolding open_path path_signed_data path_signature box encrypted
  open_path-box p source k k' x y t t' signer here pt cipher lk lk' lt codec sig lp valid len token
        leads me point =
      let inner = k' ++ (token_bytes t' ++ (x ++ y)) in
      let n = nonce_bytes p.c.round p.c.layer p.c.my_id in
      let ln = length-nonce_bytes p.c.round p.c.layer p.c.my_id in
      let c = encrypted xor_key_stream (agree pt) n inner in
      let s = signer (n ++ c) in
      (
        record {
          in_key = k;
          in_token = t;
          signed_ciphertext = c ++ s;
          raw = take (key_size + token_size - 24) (k ++ token_bytes t) ++ (n ++ (c ++ s));
        },
        refl,
        rw (
          len,
          nonce_lem p.c.round p.c.layer p.c.my_id,
          interpret_path-append token_size token_bytes no_token interpret_token k (c ++ s) t lk
              (lt t) (codec t),
          token,
          leads,
          (==_iff here (to_u64 p.c.my_id)).1 me,
          point,
          behind p.c.round p.c.layer p.c.my_id k (token_bytes t) c s (key_size + token_size)
              (omega (arith, lt t)) (omega arith) (sig _),
          read_signature-append c s (sig _),
          valid (n ++ c),
          secret_open_lem xor_key_stream c s n (agree pt) ln lp (sig _),
          cipher.involutive (take symmetric_key_size (agree pt)) (take block_size n) inner,
          interpret_info-append token_size token_bytes no_token interpret_token k' x y t' lk'
              (lt t') (codec t'),
        ),
      )
