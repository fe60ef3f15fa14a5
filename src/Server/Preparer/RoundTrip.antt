-- ===== src/Server/Preparer/RoundTrip.antt =====
-- A client's registration on the wire.
use bmrng.Prelude.{◌≡◌, refl, sym, [], ◌++◌, length, length-append, arith}
use bmrng.Prelude.Int.{to_u64, IsInt64, from_u64-to_u64, to_u64-lt}
use bmrng.Prelude.Outcome.{ok, ◌>>=◌}
use bmrng.Prelude.Bytes.{make, le_bytes, length-le_bytes}
use bmrng.Prelude.Pack.{put_le-part, get_le-part, copy_last, slice_tail}
use bmrng.Crypto.Keys.{key_size, pack_key, interpret_key}
use bmrng.Server.Preparer.{
  NewClientRequest, new_client_request_len, pack_client_request, interpret_client_request,
}

pack_client_request_lem :
    (t : NewClientRequest)
    → length t.verification_key ≡ key_size
    → pack_client_request t (make new_client_request_len)
      ≡ ok (le_bytes 8 (to_u64 t.id) ++ t.verification_key)
unfolding pack_client_request pack_key
pack_client_request_lem t l =
    let v = to_u64 t.id in
    let k = length-le_bytes 8 v in
    let whole = length-append (le_bytes 8 v) (make key_size) in
    rw (put_le-part 8 [] (make 8) (make key_size) 0 v refl refl, whole, k)
      (rw
        (copy_last (le_bytes 8 v) (make key_size) t.verification_key 8 40 k (sym l) (omega arith)))

-- A registration packed into a buffer of its length is read back unchanged, if the id is a 64-bit
-- integer and the key has its 32 bytes.
pub interpret_client_request-pack_client_request :
    (t : NewClientRequest)
    → IsInt64 t.id
    → length t.verification_key ≡ key_size
    → (pack_client_request t (make new_client_request_len) >>= interpret_client_request) ≡ ok t
unfolding interpret_client_request interpret_key
interpret_client_request-pack_client_request t fits l =
    let v = to_u64 t.id in
    let k = length-le_bytes 8 v in
    let whole = length-append (le_bytes 8 v) t.verification_key in
    rw (
      pack_client_request_lem t l,
      whole,
      k,
      l,
      get_le-part 8 [] t.verification_key 0 v refl (to_u64-lt t.id),
      slice_tail (le_bytes 8 v) t.verification_key 8 40 k (omega arith),
      l,
      from_u64-to_u64 t.id fits,
    )
