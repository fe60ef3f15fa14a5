-- ===== src/Server/Paths/RoundTrip.antt =====
-- Packing and parsing of the messages of path establishment.
use mathlib.Core.List.{append_assoc}
use bmrng.Prelude.{
  ℕ, ◌+◌, ◌≡◌, refl, [], ◌++◌, length, length-append, length-replicate, length-fill, fill, arith,
}
use bmrng.Prelude.Outcome.{Outcome, ok, ◌>>=◌}
use bmrng.Prelude.Bytes.{Bytes, make}
use bmrng.Prelude.Pack.{
  slice_part, slice_tail, copy_at-fill, copy_at-next, copy_at-within, fill_whole,
}
use bmrng.Crypto.Keys.{key_size, pack_key, interpret_key}
use bmrng.Server.Paths.{
  PathEstablishmentEnvelope, PathEstablishmentInfo, path_len, pack_path, marshal_path, marshal_info,
  ignore_error, interpret_path, interpret_info,
}

-- A key of the right size is read back.
interpret_key_whole : (key : Bytes) → length key ≡ key_size → interpret_key key ≡ ok key
unfolding interpret_key
interpret_key_whole key l = rw l

module _ {Token : Type 0} (token_size : ℕ) (token_bytes : Token → Bytes) where
  pub marshal_path_lem :
      (p : PathEstablishmentEnvelope Token)
      → length p.in_key ≡ key_size
      → length (token_bytes p.in_token) ≡ token_size
      → marshal_path token_size token_bytes p
        ≡ ok (p.in_key ++ (token_bytes p.in_token ++ p.signed_ciphertext))
  unfolding marshal_path path_len pack_path pack_key
  marshal_path_lem p lk lt =
      let k = p.in_key in
      let t = token_bytes p.in_token in
      let c = p.signed_ciphertext in
      let b = make (key_size + token_size + length c) in
      let lb = length-replicate {A = ℕ} (key_size + token_size + length c) 0 in
      let kt = length-append k t in
      let room = length-fill b 0 (k ++ t) (omega arith) in
      let whole = length-append (k ++ t) c in
      rw (
        copy_at-fill b 0 key_size k (omega arith) (omega arith),
        copy_at-next b k key_size (key_size + token_size) t lk (omega arith) (omega arith),
        copy_at-next b (k ++ t) (key_size + token_size) (length (fill b 0 (k ++ t))) c (omega arith)
            (omega arith) (omega arith),
        fill_whole b ((k ++ t) ++ c) (omega arith),
        append_assoc k t c,
      )

  pub marshal_info_lem :
      (p : PathEstablishmentInfo Token)
      → length p.out_key ≡ key_size
      → length (token_bytes p.out_token) ≡ token_size
      → marshal_info token_size token_bytes p
        ≡ ok (p.out_key ++ (token_bytes p.out_token ++ (p.boomerang_envelope ++ p.next_envelope)))
  unfolding marshal_info pack_key
  marshal_info_lem p lk lt =
      let k = p.out_key in
      let t = token_bytes p.out_token in
      let x = p.boomerang_envelope in
      let y = p.next_envelope in
      let n = token_size + key_size + length x + length y in
      let b = make n in
      let lb = length-replicate {A = ℕ} n 0 in
      let kt = length-append k t in
      let ktx = length-append (k ++ t) x in
      let ktxy = length-append ((k ++ t) ++ x) y in
      rw (
        copy_at-fill b 0 key_size k (omega arith) (omega arith),
        copy_at-next b k key_size (key_size + token_size) t lk (omega arith) (omega arith),
        copy_at-within b (k ++ t) (key_size + token_size) (length (fill b 0 (k ++ t))) x
            (omega arith) (omega (arith, length-fill b 0 (k ++ t) (omega arith)))
            (omega (arith, length-fill b 0 (k ++ t) (omega arith))),
        copy_at-within b ((k ++ t) ++ x) (key_size + token_size + length x)
            (length (fill b 0 ((k ++ t) ++ x))) y (omega arith)
            (omega (arith, length-fill b 0 ((k ++ t) ++ x) (omega arith)))
            (omega (arith, length-fill b 0 ((k ++ t) ++ x) (omega arith))),
        fill_whole b (((k ++ t) ++ x) ++ y) (omega arith),
        append_assoc (k ++ t) x y,
        append_assoc k t (x ++ y),
      )

  module _ (no_token : Token) (interpret_token : Bytes → Outcome Token) where
    pub interpret_path-append :
        (k c : Bytes) (t : Token)
        → length k ≡ key_size
        → length (token_bytes t) ≡ token_size
        → interpret_token (token_bytes t) ≡ ok t
        → interpret_path token_size no_token interpret_token (k ++ (token_bytes t ++ c))
          ≡ ok (record {
            in_key = k;
            in_token = t;
            signed_ciphertext = c;
            raw = k ++ (token_bytes t ++ c);
          })
    unfolding interpret_path ignore_error
    interpret_path-append k c t lk lt codec =
        let kt = length-append k (token_bytes t) in
        rw (
          slice_part [] k (token_bytes t ++ c) 0 key_size refl (omega arith),
          interpret_key_whole k lk,
          slice_part k (token_bytes t) c key_size (key_size + token_size) lk (omega arith),
          codec,
          ← append_assoc k (token_bytes t) c,
          slice_tail (k ++ token_bytes t) c (key_size + token_size)
              (length ((k ++ token_bytes t) ++ c)) (omega arith) refl,
        )

    -- An envelope of path establishment with a whole key is parsed from its own marshalling, and the
    -- parsed one keeps those bytes as its raw data, if the codec of tokens gives its token back from
    -- bytes of the token's size.
    pub interpret_path-marshal_path :
        (p : PathEstablishmentEnvelope Token)
        → length p.in_key ≡ key_size
        → length (token_bytes p.in_token) ≡ token_size
        → interpret_token (token_bytes p.in_token) ≡ ok p.in_token
        → (marshal_path token_size token_bytes p
            >>= interpret_path token_size no_token interpret_token)
          ≡ ok (record p { raw = p.in_key ++ (token_bytes p.in_token ++ p.signed_ciphertext) })
    interpret_path-marshal_path p lk lt codec =
        rw (marshal_path_lem p lk lt)
          (interpret_path-append p.in_key p.signed_ciphertext p.in_token lk lt codec)

    pub interpret_info-append :
        (k x y : Bytes) (t : Token)
        → length k ≡ key_size
        → length (token_bytes t) ≡ token_size
        → interpret_token (token_bytes t) ≡ ok t
        → interpret_info token_size no_token interpret_token
            (k ++ (token_bytes t ++ (x ++ y)))
            (length x)
          ≡ ok (record {
            out_key = k;
            out_token = t;
            boomerang_envelope = x;
            next_envelope = y;
            raw = k ++ (token_bytes t ++ (x ++ y));
          })
    unfolding interpret_info
    interpret_info-append k x y t lk lt codec =
        let kt = length-append k (token_bytes t) in
        let ktx = length-append (k ++ token_bytes t) x in
        rw (
          slice_part [] k (token_bytes t ++ (x ++ y)) 0 key_size refl (omega arith),
          interpret_key_whole k lk,
          slice_part k (token_bytes t) (x ++ y) key_size (key_size + token_size) lk (omega arith),
          codec,
          ← append_assoc k (token_bytes t) (x ++ y),
          slice_part (k ++ token_bytes t) x y (key_size + token_size)
              (key_size + token_size + length x) (omega arith) (omega arith),
          ← append_assoc (k ++ token_bytes t) x y,
          slice_tail ((k ++ token_bytes t) ++ x) y (key_size + token_size + length x)
              (length (((k ++ token_bytes t) ++ x) ++ y)) (omega arith) refl,
        )

    -- What is inside an envelope of path establishment is parsed from its own marshalling, if it is
    -- parsed with the length that its receipt has, its key is whole, and the codec of tokens gives its
    -- token back from bytes of the token's size.
    pub interpret_info-marshal_info :
        (p : PathEstablishmentInfo Token)
        → length p.out_key ≡ key_size
        → length (token_bytes p.out_token) ≡ token_size
        → interpret_token (token_bytes p.out_token) ≡ ok p.out_token
        → (marshal_info token_size token_bytes p >>= λ b.
            interpret_info token_size no_token interpret_token b (length p.boomerang_envelope))
          ≡ ok (record p {
            raw =
                p.out_key ++ (token_bytes p.out_token ++ (p.boomerang_envelope ++ p.next_envelope));
          })
    interpret_info-marshal_info p lk lt codec = rw (marshal_info_lem p lk lt) (
        interpret_info-append p.out_key p.boomerang_envelope p.next_envelope p.out_token lk lt
          codec)
