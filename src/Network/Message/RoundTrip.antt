-- ===== src/Network/Message/RoundTrip.antt =====
-- A message from the sender's buffer to the receiver's.
use mathlib.Core.List.{append_assoc, append-nil}
use bmrng.Prelude.{
  ℕ, ◌+◌, ◌^◌, ◌<◌, ◌≡◌, refl, ap, subst, ◌∙◌, some, [], ◌++◌, length, length-append,
  length-replicate, arith, le→ltb,
}
use bmrng.Prelude.Int.{to_u32, to_u32-pos, to_u32-from_u32, to_u32-lt}
use bmrng.Prelude.Outcome.{ok, ◌>>=◌}
use bmrng.Prelude.Bytes.{Bytes, make}
use bmrng.Prelude.Pack.{make_three, fill_part, copy_part, copy_last, slice_part, slice_tail}
use bmrng.Network.Metadata.{Metadata, metadata_size}
use bmrng.Network.Metadata.RoundTrip.{
  header, length-header, pack_to-fill, interpret_from-header, on_wire,
}
use bmrng.Network.Message.{
  SignedMessage, signature_size, new, put_data, get_signed_data, sign, as_array, as_network_message,
  parse_signed_message, data_of,
}

put_data-new :
    (m : Metadata) (d : Bytes)
    → put_data (new (length d) m) d
      ≡ ok (record {
        metadata = m;
        raw = make metadata_size ++ (d ++ make signature_size);
        data_len = length d;
        signature = make 0;
      })
unfolding put_data new
put_data-new m d = rw (
  make_three metadata_size (length d) signature_size,
  copy_part (make metadata_size) (make (length d)) d (make signature_size) metadata_size
      (metadata_size + length d) refl (length-replicate {A = ℕ} (length d) 0) refl,
)

-- Whatever stood in front and behind, the signed bytes are the header and the data.
get_signed_data-parts :
    (m : Metadata) (x d post signature : Bytes)
    → length x ≡ metadata_size
    → get_signed_data (record {
      metadata = m;
      raw = x ++ (d ++ post);
      data_len = length d;
      signature = signature;
    })
      ≡ ok (
        record {
          metadata = m;
          raw = header m ++ (d ++ post);
          data_len = length d;
          signature = signature;
        },
        header m ++ d,
      )
unfolding get_signed_data
get_signed_data-parts m x d post signature l =
    let size = length-header m in
    rw (
      pack_to-fill m (x ++ (d ++ post)) (omega (arith, length-append x (d ++ post))),
      fill_part [] x (header m) (d ++ post) 0 refl (omega arith),
      ← append_assoc (header m) d post,
      slice_part [] (header m ++ d) post 0 (metadata_size + length d) refl
          (omega (arith, length-append (header m) d)),
    )

-- A new message, filled and signed.
abbrev pub signed : (Bytes → Bytes) → Metadata → Bytes → SignedMessage
signed signer m d = record {
  metadata = m;
  raw = header m ++ (d ++ make signature_size);
  data_len = length d;
  signature = signer (header m ++ d);
}

sign-new :
    (signer : Bytes → Bytes) (m : Metadata) (d : Bytes)
    → (put_data (new (length d) m) d >>= sign signer) ≡ ok (signed signer m d)
unfolding sign
sign-new signer m d = rw (
  put_data-new m d,
  get_signed_data-parts m (make metadata_size) d (make signature_size) (make 0) refl,
)

header-on_wire : (m : Metadata) → m.num_messages < 2 ^ 32 → header (on_wire m) ≡ header m
unfolding header
header-on_wire m h = rw (
  to_u32-from_u32 (to_u32 m.kind) (to_u32-lt m.kind),
  to_u32-pos m.round,
  to_u32-pos m.layer,
  to_u32-pos m.sender,
  to_u32-pos m.dest,
  to_u32-from_u32 (to_u32 m.group) (to_u32-lt m.group),
)

-- The receiver's message: the metadata as it is on the wire, and the sender's data and signature.
abbrev pub received : (Bytes → Bytes) → Metadata → Bytes → SignedMessage
received signer m d = record {
  metadata = on_wire m;
  raw = header m ++ d;
  data_len = length d;
  signature = signer (header m ++ d);
}

parse-signed :
    (signer : Bytes → Bytes) (m : Metadata) (d : Bytes)
    → m.num_messages < 2 ^ 32
    → (as_network_message (signed signer m d) >>= parse_signed_message)
      ≡ ok (some (received signer m d))
unfolding as_network_message parse_signed_message
parse-signed signer m d h =
    let size = length-header m in
    let whole = length-append (header m) d in
    rw
      (
        ← append_assoc (header m) d (make signature_size),
        slice_part [] (header m ++ d) (make signature_size) 0 (metadata_size + length d) refl
            (omega arith),
        le→ltb (length (header m ++ d)) metadata_size (omega arith),
        interpret_from-header m d h,
      )
      (ap (λ n. ok (some (record (received signer m d) { data_len = n }))) (omega arith))

get_signed_data-whole :
    (m : Metadata) (x d signature : Bytes)
    → length x ≡ metadata_size
    → get_signed_data
        (record { metadata = m; raw = x ++ d; data_len = length d; signature = signature })
      ≡ ok (
        record { metadata = m; raw = header m ++ d; data_len = length d; signature = signature },
        header m ++ d,
      )
get_signed_data-whole m x d signature l =
    subst
      (λ t.
        get_signed_data
          (record { metadata = m; raw = x ++ t; data_len = length d; signature = signature })
        ≡ ok (
          record { metadata = m; raw = header m ++ t; data_len = length d; signature = signature },
          header m ++ d,
        ))
      (append-nil d) (get_signed_data-parts m x d [] signature l)

get_signed_data-received :
    (signer : Bytes → Bytes) (m : Metadata) (d : Bytes)
    → m.num_messages < 2 ^ 32
    → get_signed_data (received signer m d) ≡ ok (received signer m d, header m ++ d)
get_signed_data-received signer m d h =
    get_signed_data-whole (on_wire m) (header m) d (signer (header m ++ d)) (length-header m)
    ∙ ap (λ x. ok (record (received signer m d) { raw = x ++ d }, x ++ d)) (header-on_wire m h)

-- A message made by `NewSignedMessage`, filled with data of the announced length, signed and sent by
-- RPC arrives with the same data, the metadata as `uint32` keeps it and the signature; and the bytes
-- that the receiver checks the signature on are the very bytes that were signed, the header and the
-- data.
pub send-receive :
    (signer : Bytes → Bytes) (m : Metadata) (d : Bytes)
    → m.num_messages < 2 ^ 32
    → ((put_data (new (length d) m) d
          >>= sign signer
          >>= as_network_message
          >>= parse_signed_message)
        ≡ ok (some (received signer m d)))
      × (data_of (received signer m d) ≡ ok d)
      × (get_signed_data (received signer m d) ≡ ok (received signer m d, header m ++ d))
unfolding data_of
send-receive signer m d h = (
  rw (sign-new signer m d) (parse-signed signer m d h),
  slice_tail (header m) d metadata_size (metadata_size + length d) (length-header m)
      (omega (arith, length-append (header m) d, length-header m)),
  get_signed_data-received signer m d h,
)

-- On a link the same message is the header, the data and the signature in a row, if the signature
-- has its 64 bytes.
pub as_array-signed :
    (signer : Bytes → Bytes) (m : Metadata) (d : Bytes)
    → length (signer (header m ++ d)) ≡ signature_size
    → (put_data (new (length d) m) d >>= sign signer >>= as_array)
      ≡ ok (
        record (signed signer m d) { raw = (header m ++ d) ++ signer (header m ++ d) },
        (header m ++ d) ++ signer (header m ++ d),
      )
unfolding as_array
as_array-signed signer m d l =
    let x = header m ++ d in
    let y = signer x in
    let size = length-append (header m) d in
    let h = length-header m in
    let room = length-replicate {A = ℕ} signature_size 0 in
    let n = length d + metadata_size in
    let whole = length-append x (make signature_size) in
    rw (
      sign-new signer m d,
      ← append_assoc (header m) d (make signature_size),
      copy_last x (make signature_size) y n (length (x ++ make signature_size)) (omega arith)
          (omega arith) (omega arith),
      slice_tail [] (x ++ y) 0 (n + signature_size) refl (omega (arith, length-append x y)),
    )
