-- ===== src/Network/Batching/Reading.antt =====
-- The batches of a link put its messages into the channel, one by one.
use mathlib.Core.List.{append_assoc, append-nil}
use native.Mathlib.Nat.{mul-zero, mul-suc}
use bmrng.Prelude.{
  ℕ, zero, suc, ◌+◌, ◌-◌, ◌*◌, ◌≤◌, ◌<◌, ◌≡◌, refl, sym, ap, ap₂, ◌∙◌, ◌==◌, if◌then◌else◌, some,
  List, [], ◌∷◌, ◌++◌, length, take, drop, flatten, lt→ltb, le→ltb, le→leb, length-append,
  length-take, length-drop, take-append_at, drop-append_at, drop_all, take-append-drop, arith,
}
use bmrng.Prelude.Outcome.{ok}
use bmrng.Prelude.Bytes.{Bytes}
use bmrng.Prelude.Pack.{slice_part}
use bmrng.Crypto.Keys.{signature_size}
use bmrng.Network.Buffer.Padding.{Sized}
use bmrng.Network.Batching.{
  ConnectionReader, new, split_loop, batch_at, read_batch, read_signature, reader_loop,
  continuous_reader,
}

length-flatten :
    (size : ℕ) (ms : List Bytes) → Sized size ms → length (flatten ms) ≡ size * length ms
length-flatten size [] h = sym (mul-zero size)
length-flatten size (m ∷ ms) (l, h) =
    omega
      (arith, length-append m (flatten ms), length-flatten size ms h, mul-suc size (length ms), l)

pub Sized-take : (size k : ℕ) (ms : List Bytes) → Sized size ms → Sized size (take k ms)
Sized-take size zero ms h = tt
Sized-take size (suc k) [] h = tt
Sized-take size (suc k) (m ∷ ms) (l, h) = (l, Sized-take size k ms h)

Sized-drop : (size k : ℕ) (ms : List Bytes) → Sized size ms → Sized size (drop k ms)
Sized-drop size zero ms h = h
Sized-drop size (suc k) [] h = tt
Sized-drop size (suc k) (m ∷ ms) (l, h) = Sized-drop size k ms h

pub flatten-split :
    (k : ℕ) (ms : List Bytes) → flatten ms ≡ flatten (take k ms) ++ flatten (drop k ms)
flatten-split zero ms = refl
flatten-split (suc k) [] = refl
flatten-split (suc k) (m ∷ ms) =
    ap (◌++◌ m) (flatten-split k ms)
    ∙ sym (append_assoc m (flatten (take k ms)) (flatten (drop k ms)))

split_stop :
    (fuel size : ℕ) (b : Bytes) (pos : ℕ) → length b ≤ pos → split_loop fuel size b pos ≡ ok []
unfolding split_loop
split_stop zero size b pos h = refl
split_stop (suc fuel) size b pos h = rw (split_loop, le→ltb pos (length b) h)

-- The inner loop finds the messages behind those that it has passed.
split_loop_lem :
    (fuel size : ℕ) (pre : Bytes) (ms : List Bytes)
    → 0 < size
    → length ms ≤ fuel
    → Sized size ms
    → split_loop fuel size (pre ++ flatten ms) (length pre) ≡ ok ms
unfolding split_loop
split_loop_lem fuel size pre [] large h s =
    split_stop fuel size (pre ++ []) (length pre) (omega (arith, length-append pre []))
split_loop_lem zero size pre (m ∷ ms) large h s = absurd (omega (arith, h))
split_loop_lem (suc fuel) size pre (m ∷ ms) large h (l, s) = rw (
  split_loop,
  lt→ltb (length pre) (length (pre ++ (m ++ flatten ms)))
      (omega (arith, length-append pre (m ++ flatten ms), length-append m (flatten ms))),
  slice_part pre m (flatten ms) (length pre) (length pre + size) refl (omega arith),
  ← append_assoc pre m (flatten ms),
  next_pos pre m size l,
  split_loop_lem fuel size (pre ++ m) ms large (omega (arith, h)) s,
)
  where
    next_pos : (pre m : Bytes) (size : ℕ) → length m ≡ size → length pre + size ≡ length (pre ++ m)
    next_pos pre m size l = omega (arith, length-append pre m)

length-le-flatten :
    (size : ℕ) (ms : List Bytes) → 0 < size → Sized size ms → length ms ≤ length (flatten ms)
length-le-flatten size [] large h = omega arith
length-le-flatten size (m ∷ ms) large (l, h) =
    omega (arith, length-append m (flatten ms), length-le-flatten size ms large h, l, large)

-- The signature behind the messages.
read_signature_lem :
    (c : ConnectionReader) (s rest : Bytes)
    → c.conn ≡ s ++ rest
    → length c.signature ≡ length s
    → read_signature c ≡ record c { signature = s; conn = rest }
unfolding read_signature
read_signature_lem c s rest e l =
    ap₂ (λ x y. record c { signature = x; conn = y })
      (rw e (
        ap₂ ◌++◌ (take-append_at (length c.signature) s rest (sym l))
          (drop_all (length (s ++ rest)) c.signature (omega (arith, length-append s rest, l)))
        ∙ append-nil s))
      (rw e (drop-append_at (length c.signature) s rest (sym l)))

-- A batch of the first `k` of the messages that are left.
read_batch_lem :
    (c : ConnectionReader) (k : ℕ) (rs : List Bytes) (tail : Bytes)
    → k ≤ length rs
    → Sized c.message_size rs
    → c.conn ≡ flatten rs ++ tail
    → read_batch c k ≡ some (flatten (take k rs), record c { conn = flatten (drop k rs) ++ tail })
unfolding read_batch
read_batch_lem c k rs tail small sized e =
    let front = flatten (take k rs) in
    let back = flatten (drop k rs) in
    let whole = e ∙ (ap (λ b. b ++ tail) (flatten-split k rs) ∙ append_assoc front back tail) in
    let size = size_of c k rs small sized in
    rw (
      whole,
      le→leb (c.message_size * k) (length (front ++ (back ++ tail)))
          (omega (arith, size, length-append front (back ++ tail))),
      take-append_at (c.message_size * k) front (back ++ tail) size,
      drop-append_at (c.message_size * k) front (back ++ tail) size,
    )
  where
    size_of :
        (c : ConnectionReader) (k : ℕ) (rs : List Bytes)
        → k ≤ length rs
        → Sized c.message_size rs
        → length (flatten (take k rs)) ≡ c.message_size * k
    size_of c k rs small sized =
        length-flatten c.message_size (take k rs) (Sized-take c.message_size k rs sized)
        ∙ ap (◌*◌ c.message_size) (omega (arith, length-take k rs))

reader_stop :
    (fuel : ℕ) (c : ConnectionReader) (i : ℕ)
    → c.num_messages ≤ i
    → reader_loop fuel c i ≡ ok (read_signature c)
unfolding reader_loop
reader_stop zero c i h = refl
reader_stop (suc fuel) c i h = rw (reader_loop, le→ltb i c.num_messages h)

reader_step :
    (fuel : ℕ) (c c' : ConnectionReader) (i : ℕ) (b : Bytes) (ms : List Bytes)
    → i < c.num_messages
    → read_batch c (batch_at c i) ≡ some (b, c')
    → split_loop (length b) c.message_size b 0 ≡ ok ms
    → reader_loop (suc fuel) c i
      ≡ reader_loop fuel (record c' { buff = c'.buff ++ ms }) (i + c.base_batch_size)
unfolding reader_loop
reader_step fuel c c' i b ms inside batch parts =
    rw (reader_loop, lt→ltb i c.num_messages inside, batch, parts)

batch_bounds :
    (c : ConnectionReader) (i n : ℕ)
    → 0 < c.base_batch_size
    → suc n ≡ c.num_messages - i
    → (0 < batch_at c i)
      × (batch_at c i ≤ suc n)
      × (suc n - batch_at c i ≡ c.num_messages - (i + c.base_batch_size))
unfolding batch_at
batch_bounds c i n base left = ground arith

reader_loop_lem :
    (fuel : ℕ) (c : ConnectionReader) (i : ℕ) (rs : List Bytes) (s rest : Bytes)
    → 0 < c.message_size
    → 0 < c.base_batch_size
    → length rs ≤ fuel
    → length rs ≡ c.num_messages - i
    → Sized c.message_size rs
    → c.conn ≡ flatten rs ++ (s ++ rest)
    → length c.signature ≡ length s
    → reader_loop fuel c i ≡ ok (record c { conn = rest; signature = s; buff = c.buff ++ rs })
reader_loop_lem fuel c i [] s rest large base enough left sized e l =
    reader_stop fuel c i (omega (arith, left))
    ∙ (ap ok (read_signature_lem c s rest e l)
        ∙ ap (λ b. ok (record c { conn = rest; signature = s; buff = b }))
            (sym (append-nil c.buff)))
reader_loop_lem zero c i (m ∷ rs) s rest large base enough left sized e l =
    absurd (omega (arith, enough))
reader_loop_lem (suc fuel) c i (m ∷ rs) s rest large base enough left sized e l =
    let ms = m ∷ rs in
    let k = batch_at c i in
    let (positive, small, after) = batch_bounds c i (length rs) base left in
    let front = take k ms in
    let back = drop k ms in
    let c' = record c { conn = flatten back ++ (s ++ rest) } in
    let sized_front = Sized-take c.message_size k ms sized in
    let front_length = length-le-flatten c.message_size front large sized_front in
    reader_step fuel c c' i (flatten front) front (omega (arith, left))
      (read_batch_lem c k ms (s ++ rest) small sized e)
      (split_loop_lem (length (flatten front)) c.message_size [] front large front_length
        sized_front)
    ∙ (reader_loop_lem fuel (record c' { buff = c.buff ++ front }) (i + c.base_batch_size) back s
          rest large base (omega (arith, length-drop k ms, enough, positive))
          (omega (arith, length-drop k ms, after)) (Sized-drop c.message_size k ms sized) refl l
        ∙ ap (λ b. ok (record c { conn = rest; signature = s; buff = b }))
            (append_assoc c.buff front back ∙ ap (◌++◌ c.buff) (take-append-drop k ms)))

-- A link is read. If a connection delivers the messages announced, all of the size announced and not
-- empty, and then a signature, the reader puts exactly those messages into its channel, in order,
-- whatever its batch size is, keeps the signature, and leaves what follows on the connection.
pub continuous_reader-flatten :
    (ms : List Bytes) (size base : ℕ) (s rest : Bytes)
    → 0 < size
    → Sized size ms
    → length s ≡ signature_size
    → continuous_reader (new (length ms) size base (flatten ms ++ (s ++ rest)))
      ≡ ok (record (new (length ms) size base rest) { signature = s; buff = ms })
unfolding continuous_reader new
continuous_reader-flatten ms size base s rest large sized l =
    reader_loop_lem (length ms) (new (length ms) size base (flatten ms ++ (s ++ rest))) 0 ms s rest
      large (batch base) (omega arith) (omega arith) sized refl (sym l)
  where
    batch : (base : ℕ) → 0 < (if base == 0 then 1 else base)
    batch base = ground arith
