-- ===== src/Crypto/Sealing/Opening.antt =====
-- A sealed message on its way: what is signed, what is checked, and what is decrypted.
use mathlib.Core.List.{append_assoc}
use bmrng.Prelude.{
  ℕ, ◌+◌, ◌-◌, ◌≤◌, ◌≡◌, refl, sym, ap, ◌∙◌, [], ◌++◌, length, take, drop, leb, le→leb,
  length-append, length-replicate, length-take, length-drop, take-append-drop, arith,
}
use bmrng.Prelude.Int.{ℤ, to_u64}
use bmrng.Prelude.Outcome.{ok, check, ◌>>=◌, ◌>>◌}
use bmrng.Prelude.Bytes.{Bytes, make, slice, le_bytes, length-le_bytes}
use bmrng.Prelude.Pack.{
  slice_part, slice_tail, slice_front, make_three, fill_whole, put_le-next, put_le-part, copy_part,
  copy_last,
}
use bmrng.Crypto.Sealing.{
  nonce_size, symmetric_key_size, block_size, overhead, nonce, read_signature, pack_signed_data,
  signed_secret_seal, secret_open,
}

-- The nonce: three 64-bit words.
pub nonce_bytes : ℤ → ℤ → ℤ → Bytes
nonce_bytes round layer dest_id =
    le_bytes 8 (to_u64 round) ++ (le_bytes 8 (to_u64 layer) ++ le_bytes 8 (to_u64 dest_id))

pub length-nonce_bytes : (r l d : ℤ) → length (nonce_bytes r l d) ≡ nonce_size
unfolding nonce_bytes
length-nonce_bytes r l d = omega (
  arith,
  length-append (le_bytes 8 (to_u64 r)) (le_bytes 8 (to_u64 l) ++ le_bytes 8 (to_u64 d)),
  length-append (le_bytes 8 (to_u64 l)) (le_bytes 8 (to_u64 d)),
  length-le_bytes 8 (to_u64 r),
  length-le_bytes 8 (to_u64 l),
  length-le_bytes 8 (to_u64 d),
)

pub nonce_lem : (r l d : ℤ) → nonce r l d ≡ ok (nonce_bytes r l d)
unfolding nonce nonce_bytes
nonce_lem r l d =
    let a = le_bytes 8 (to_u64 r) in
    let b = le_bytes 8 (to_u64 l) in
    let c = le_bytes 8 (to_u64 d) in
    let la = length-le_bytes 8 (to_u64 r) in
    let lb = length-le_bytes 8 (to_u64 l) in
    let lc = length-le_bytes 8 (to_u64 d) in
    let room = length-replicate {A = ℕ} nonce_size 0 in
    let ab = length-append a b in
    rw (
      put_le-next 8 (make nonce_size) [] 0 (to_u64 r) refl (omega arith),
      put_le-next 8 (make nonce_size) a 8 (to_u64 l) la (omega arith),
      put_le-next 8 (make nonce_size) (a ++ b) 16 (to_u64 d) (omega arith) (omega arith),
      append_assoc a b c,
      fill_whole (make nonce_size) (a ++ (b ++ c))
          (omega (arith, length-append a (b ++ c), length-append b c)),
    )

-- The signature is the box's last 64 bytes.
pub read_signature-append : (c s : Bytes) → length s ≡ overhead → read_signature (c ++ s) ≡ ok s
unfolding read_signature
read_signature-append c s l =
    let size = length-append c s in
    rw (
      le→leb overhead (length (c ++ s)) (omega arith),
      slice_tail c s (length (c ++ s) - overhead) (length (c ++ s)) (omega arith) refl,
    )

signed_part :
    (pre m s : Bytes) (lo : ℕ)
    → length pre ≡ lo
    → length s ≡ overhead
    → ◌>>◌ {Out = Bytes × Bytes} (check (leb overhead (length (pre ++ (m ++ s))))) (
        slice (pre ++ (m ++ s)) lo (length (pre ++ (m ++ s)) - overhead) >>= λ d.
        ok (pre ++ (m ++ s), d))
      ≡ ok (pre ++ (m ++ s), m)
signed_part pre m s lo lo_pre ls =
    let n = length (pre ++ (m ++ s)) in
    let size = length-append pre (m ++ s) in
    let tail = length-append m s in
    rw (le→leb overhead n (omega arith), slice_part pre m s lo (n - overhead) lo_pre (omega arith))

-- The room of the nonce in front of the box, in four pieces.
pack_signed_data-pieces :
    (r l v : ℤ) (pre x y z c s : Bytes) (offset : ℕ)
    → length x ≡ 8
    → length y ≡ 8
    → length z ≡ 8
    → length pre + 24 ≡ offset
    → length s ≡ overhead
    → pack_signed_data r l v (pre ++ (x ++ (y ++ (z ++ (c ++ s))))) offset
      ≡ ok (pre ++ (nonce_bytes r l v ++ (c ++ s)), nonce_bytes r l v ++ c)
unfolding pack_signed_data nonce_bytes
pack_signed_data-pieces r l v pre x y z c s offset lx ly lz lo ls =
    let a = le_bytes 8 (to_u64 r) in
    let b = le_bytes 8 (to_u64 l) in
    let d = le_bytes 8 (to_u64 v) in
    let la = length-le_bytes 8 (to_u64 r) in
    let lb = length-le_bytes 8 (to_u64 l) in
    let ld = length-le_bytes 8 (to_u64 v) in
    rw
      (
        le→leb nonce_size offset (omega arith),
        put_le-part 8 pre x (y ++ (z ++ (c ++ s))) (offset - 24) (to_u64 r) (omega arith) lx,
        ← append_assoc pre a (y ++ (z ++ (c ++ s))),
        put_le-part 8 (pre ++ a) y (z ++ (c ++ s)) (offset - 16) (to_u64 l)
            (omega (arith, length-append pre a)) ly,
        ← append_assoc (pre ++ a) b (z ++ (c ++ s)),
        put_le-part 8 ((pre ++ a) ++ b) z (c ++ s) (offset - 8) (to_u64 v)
            (omega (arith, length-append (pre ++ a) b, length-append pre a)) lz,
        append_assoc (pre ++ a) b (d ++ (c ++ s)),
        append_assoc pre a (b ++ (d ++ (c ++ s))),
        ← append_assoc b d (c ++ s),
        ← append_assoc a (b ++ d) (c ++ s),
        ← append_assoc (a ++ (b ++ d)) c s,
      )
      (signed_part pre ((a ++ (b ++ d)) ++ c) s (offset - 24) (omega arith) ls)

four_pieces :
    (b : Bytes) (n : ℕ)
    → take n b ++ (take 8 (drop n b) ++ (take 8 (drop 8 (drop n b)) ++ drop 8 (drop 8 (drop n b))))
      ≡ b
four_pieces b n =
    rw (take-append-drop 8 (drop 8 (drop n b)), take-append-drop 8 (drop n b), take-append-drop n b)

-- In an envelope the box stands behind a key of `offset` bytes, 24 at least, whose last 24 bytes are
-- overwritten with the nonce.
pub pack_signed_data-box :
    (r l v : ℤ) (key c s : Bytes)
    → nonce_size ≤ length key
    → length s ≡ overhead
    → pack_signed_data r l v (key ++ (c ++ s)) (length key)
      ≡ ok (take (length key - 24) key ++ (nonce_bytes r l v ++ (c ++ s)), nonce_bytes r l v ++ c)
pack_signed_data-box r l v key c s long ls =
    let pre = take (length key - 24) key in
    let t = drop (length key - 24) key in
    let x = take 8 t in
    let y = take 8 (drop 8 t) in
    let z = drop 8 (drop 8 t) in
    let lp = length-take (length key - 24) key in
    let lt = length-drop (length key - 24) key in
    let lx = length-take 8 t in
    let ly' = length-drop 8 t in
    let ly = length-take 8 (drop 8 t) in
    let lz = length-drop 8 (drop 8 t) in
    ap (λ k. pack_signed_data r l v (k ++ (c ++ s)) (length key))
      (sym (four_pieces key (length key - 24)))
    ∙ (rw
        (
          append_assoc pre (x ++ (y ++ z)) (c ++ s),
          append_assoc x (y ++ z) (c ++ s),
          append_assoc y z (c ++ s),
        )
        (pack_signed_data-pieces r l v pre x y z c s (length key)
          (omega (arith, lp, lt, lx, ly, ly', lz)) (omega (arith, lp, lt, lx, ly, ly', lz))
          (omega (arith, lp, lt, lx, ly, ly', lz)) (omega (arith, lp)) ls))

new_room : (k : ℕ) → make (k + overhead + nonce_size) ≡ make nonce_size ++ (make k ++ make overhead)
new_room k = ap make (omega arith) ∙ make_three nonce_size k overhead

-- A stream cipher: as many bytes as it is given, and the same key stream takes itself back.
pub record IsStreamCipher (xor_key_stream : Bytes → Bytes → Bytes → Bytes) : Type 0 where
  pub same_length : (key iv m : Bytes) → length (xor_key_stream key iv m) ≡ length m
  pub involutive : (key iv m : Bytes) → xor_key_stream key iv (xor_key_stream key iv m) ≡ m

module _ (xor_key_stream : Bytes → Bytes → Bytes → Bytes) where
  -- The encryption of a message under a key and a nonce.
  unfoldable pub encrypted : Bytes → Bytes → Bytes → Bytes
  encrypted key n message = xor_key_stream (take symmetric_key_size key) (take block_size n) message

  -- A sealed message is the encryption, and the signature of the nonce and the encryption.
  pub signed_secret_seal_lem :
      (message n key : Bytes) (signer : Bytes → Bytes)
      → IsStreamCipher xor_key_stream
      → length n ≡ nonce_size
      → symmetric_key_size ≤ length key
      → length (signer (n ++ encrypted key n message)) ≡ overhead
      → signed_secret_seal xor_key_stream message n key signer
        ≡ ok (encrypted key n message ++ signer (n ++ encrypted key n message))
  unfolding signed_secret_seal encrypted
  signed_secret_seal_lem message n key signer cipher ln lk ls =
      let c = encrypted key n message in
      let lc = cipher.same_length (take symmetric_key_size key) (take block_size n) message in
      let s = signer (n ++ c) in
      let k = length message in
      let room = length-replicate {A = ℕ} k 0 in
      let last = length-replicate {A = ℕ} overhead 0 in
      let nc = length-append n c in
      rw (
        slice_front key symmetric_key_size lk,
        slice_front n block_size (omega arith),
        new_room k,
        copy_part (make nonce_size) (make k) c (make overhead) nonce_size (nonce_size + k) refl
            (omega arith) (omega arith),
        copy_part [] (make nonce_size) n (c ++ make overhead) 0 nonce_size refl (sym ln)
            (omega arith),
        ← append_assoc n c (make overhead),
        slice_part [] (n ++ c) (make overhead) 0 (nonce_size + k) refl (omega arith),
        copy_last (n ++ c) (make overhead) s (nonce_size + k) (length ((n ++ c) ++ make overhead))
            (omega arith) (omega arith) (omega (arith, length-append (n ++ c) (make overhead))),
        append_assoc n c s,
        slice_tail n (c ++ s) nonce_size (length (n ++ (c ++ s))) ln refl,
      )

  pub secret_open_lem :
      (c s n key : Bytes)
      → length n ≡ nonce_size
      → symmetric_key_size ≤ length key
      → length s ≡ overhead
      → secret_open xor_key_stream (c ++ s) n key ≡ ok (encrypted key n c)
  unfolding secret_open encrypted
  secret_open_lem c s n key ln lk ls =
      let size = length-append c s in
      rw (
        le→leb overhead (length (c ++ s)) (omega arith),
        slice_front key symmetric_key_size lk,
        slice_front n block_size (omega arith),
        slice_part [] c s 0 (length (c ++ s) - overhead) refl (omega arith),
      )

  -- A message sealed for a round, a layer and a server is opened with the same key and nonce, whatever
  -- the message, if the signature has 64 bytes and the key 16 at least.
  pub secret_open-signed_secret_seal :
      (message key : Bytes) (round layer server : ℤ) (signer : Bytes → Bytes)
      → IsStreamCipher xor_key_stream
      → symmetric_key_size ≤ length key
      → ((d : Bytes) → length (signer d) ≡ overhead)
      → (nonce round layer server >>= λ n.
          signed_secret_seal xor_key_stream message n key signer >>= λ box.
          secret_open xor_key_stream box n key)
        ≡ ok message
  unfolding encrypted
  secret_open-signed_secret_seal message key round layer server signer cipher lk ls =
      let n = nonce_bytes round layer server in
      let ln = length-nonce_bytes round layer server in
      let c = encrypted key n message in
      let s = signer (n ++ c) in
      rw (
        nonce_lem round layer server,
        signed_secret_seal_lem message n key signer cipher ln lk (ls (n ++ c)),
        secret_open_lem c s n key ln lk (ls (n ++ c)),
        cipher.involutive (take symmetric_key_size key) (take block_size n) message,
      )
