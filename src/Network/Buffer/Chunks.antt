-- ===== src/Network/Buffer/Chunks.antt =====
-- `ReadNextChunk`, call by call: the chunks, put together, are the shuffled messages in a row.
use mathlib.Core.List.{append_assoc}
use bmrng.Prelude.{
  ℕ, zero, suc, ◌+◌, ◌-◌, ◌≤◌, ◌<◌, min, ◌≡◌, refl, sym, ap, ltb, if◌then◌else◌, ◌⊎◌, inl, inr,
  List, [], ◌∷◌, ◌++◌, length, length-append, take, drop, length-take, length-drop, drop_all,
  drop-drop, fill, length-fill, fill-fill, take-append-drop, arith, Bool-cases, ◌∙◌,
}
use native.Mathlib.Nat.{add-zero, zero-add, add_assoc}
use native.Mathlib.Decide.{dec_lt}
use bmrng.Prelude.{lt→ltb, le→ltb, take-length-take, take-append-drop_taken}
use bmrng.Prelude.Outcome.{Outcome, ok, ◌>>=◌}
use bmrng.Prelude.Bytes.{Bytes}
use bmrng.Network.Buffer.{MemReadWriter, chunk_round, chunk_loop, read_next_chunk}
use bmrng.Network.Buffer.Stream.{elems, elems_of, stream, Ready}
use bmrng.Network.Buffer.Rounds.{Reads, chunk_round-Reads}

-- `o` has put the front `out` of what was left to say into `b` at `w`, and has stopped because the
-- chunk is full or nothing is left.
pub record Chunked (b : Bytes) (w : ℕ) (said : Bytes) (o : Outcome (MemReadWriter × Bytes × ℕ))
    : Type 0 where
  pub after : MemReadWriter
  pub rest : List ℕ
  pub out : Bytes
  pub result : o ≡ ok (after, fill b w out, w + length out)
  pub ready : Ready after rest
  pub split : said ≡ out ++ stream after rest
  pub within : w + length out ≤ length b
  pub finished : (w + length out ≡ length b) ⊎ (stream after rest ≡ [])

fill-nil : (b : Bytes) (w : ℕ) → fill b w [] ≡ b
fill-nil b w = rw (add-zero w) (take-append-drop w b)

-- Nothing more is read: the chunk is full, or the permutation is used up.
stop-Chunked :
    (m : MemReadWriter) (rest : List ℕ) (b : Bytes) (w : ℕ)
    → Ready m rest
    → w ≤ length b
    → (w < length b → m.offset ≡ m.element_length)
    → (w < length b → rest ≡ [])
    → Chunked b w (stream m rest) (ok (m, b, w))
unfolding elems_of
stop-Chunked m rest b w v below fresh empty = record {
  after = m;
  rest = rest;
  out = [];
  result = rw (fill-nil b w, add-zero w);
  ready = v;
  split = refl;
  within = omega arith;
  finished = elim (dec_lt w (length b)) [
    | yes lt ↦ inr (rw (empty lt, drop_all m.offset m.element (omega (arith, fresh lt, v))) refl)
    | no ge ↦ inl (omega arith)
  ];
}

-- A round and then the rest of the loop.
then-Chunked :
    (b : Bytes) (w : ℕ) (said : Bytes) (o : Outcome (MemReadWriter × Bytes × ℕ)) (rest : List ℕ)
    (k : MemReadWriter × Bytes × ℕ → Outcome (MemReadWriter × Bytes × ℕ))
    (r : Reads b w said o rest)
    → Chunked
        (fill b w r.out)
        (w + length r.out)
        (stream r.after rest)
        (k (r.after, fill b w r.out, w + length r.out))
    → Chunked b w said (o >>= k)
then-Chunked b w said o rest k r c = record {
  after = c.after;
  rest = c.rest;
  out = r.out ++ c.out;
  result = rw (r.result) (
      c.result
      ∙ rw (
        fill-fill b w r.out c.out r.within,
        length-append r.out c.out,
        add_assoc w (length r.out) (length c.out),
      ));
  ready = c.ready;
  split =
      r.split ∙ (ap (◌++◌ r.out) c.split ∙ sym (append_assoc r.out c.out (stream c.after c.rest)));
  within = omega (arith, c.within, length-append r.out c.out, length-fill b w r.out r.within);
  finished = elim c.finished [
    | inl full ↦
        inl (omega (arith, full, length-append r.out c.out, length-fill b w r.out r.within))
    | inr none_left ↦ inr none_left
  ];
}

chunk_loop-more :
    (fuel : ℕ) (m : MemReadWriter) (b : Bytes) (w : ℕ)
    → w < length b
    → m.position < m.num_elements
    → chunk_loop (suc fuel) m b w ≡ (chunk_round m b w >>= λ x. chunk_loop fuel x.0 x.1 x.2)
unfolding chunk_loop
chunk_loop-more fuel m b w room left =
    rw (lt→ltb w (length b) room, lt→ltb m.position m.num_elements left, chunk_loop)

chunk_loop-stop :
    (fuel : ℕ) (m : MemReadWriter) (b : Bytes) (w : ℕ)
    → (length b ≤ w) ⊎ (m.num_elements ≤ m.position)
    → chunk_loop (suc fuel) m b w ≡ ok (m, b, w)
unfolding chunk_loop
chunk_loop-stop fuel m b w (inl full) = rw (le→ltb w (length b) full, chunk_loop)
chunk_loop-stop fuel m b w (inr used) = elim (Bool-cases (ltb w (length b))) [
  | inl e ↦ rw (e, le→ltb m.position m.num_elements used, chunk_loop)
  | inr e ↦ rw (e, chunk_loop)
]

chunk_loop-Chunked :
    (fuel : ℕ) (m : MemReadWriter) (rest : List ℕ) (b : Bytes) (w : ℕ)
    → Ready m rest
    → length rest ≤ fuel
    → w ≤ length b
    → (w < length b → m.offset ≡ m.element_length)
    → Chunked b w (stream m rest) (chunk_loop fuel m b w)
chunk_loop-Chunked zero m [] b w v enough below fresh =
    unfold chunk_loop in stop-Chunked m [] b w v below fresh (λ _. refl)
chunk_loop-Chunked zero m (i ∷ rest) b w v enough below fresh = elim enough [ ]
chunk_loop-Chunked (suc fuel) m [] b w v enough below fresh =
    rw (chunk_loop-stop fuel m b w (inr (omega (arith, v.total))))
      (stop-Chunked m [] b w v below fresh (λ _. refl))
chunk_loop-Chunked (suc fuel) m (i ∷ rest) b w v enough below fresh = elim (dec_lt w (length b)) [
  | yes lt ↦
      let r = chunk_round-Reads m i rest b w v below (fresh lt) in
      rw (chunk_loop-more fuel m b w lt (omega (arith, v.total))) (
        then-Chunked b w (stream m (i ∷ rest)) (chunk_round m b w) rest _ r (
          chunk_loop-Chunked fuel r.after rest (fill b w r.out) (w + length r.out) r.ready
            (omega arith) (omega (arith, r.within, length-fill b w r.out r.within))
            (λ more. r.whole (omega (arith, more, length-fill b w r.out r.within)))))
  | no ge ↦
      rw (chunk_loop-stop fuel m b w (inl (omega arith)))
        (stop-Chunked m (i ∷ rest) b w v below fresh (λ lt. absurd (ge lt)))
]

-- The bytes that the call before left, as many as fit.
abbrev left_over : MemReadWriter → Bytes → Bytes
left_over m b = take (length b) (drop m.offset m.element)

left_over-Reads :
    (m : MemReadWriter) (rest : List ℕ) (b : Bytes)
    → Ready m rest
    → Reads b 0
        (stream m rest)
        (ok (
          record m { offset = m.offset + length (left_over m b) },
          fill b 0 (left_over m b),
          0 + length (left_over m b),
        ))
        rest
left_over-Reads m rest b v =
    let l = length-take (length b) (drop m.offset m.element) in
    let d = length-drop m.offset m.element in
    record {
      after = record m { offset = m.offset + length (left_over m b) };
      out = left_over m b;
      result = refl;
      ready = record {
        at = v.at;
        total = v.total;
        distinct = v.distinct;
        counted = v.counted;
        fits = v.fits;
        element_sized = v.element_sized;
        offset_within = omega (arith, v);
      };
      split = rw (
        ← drop-drop m.offset (length (left_over m b)) m.element,
        ← append_assoc (left_over m b) (drop (length (left_over m b)) (drop m.offset m.element))
            (elems m rest),
        take-append-drop_taken (length b) (drop m.offset m.element),
      );
      within = omega arith;
      whole = λ lt. omega (arith, v);
    }

read_next_chunk_lem :
    (m : MemReadWriter) (b : Bytes)
    → m.offset ≤ m.element_length
    → length m.element ≡ m.element_length
    → read_next_chunk m b
      ≡ chunk_loop
          (m.num_elements - m.position)
          (record m { offset = m.offset + length (left_over m b) })
          (fill b 0 (left_over m b))
          (0 + length (left_over m b))
unfolding read_next_chunk
read_next_chunk_lem m b within sized =
    rw (
      fits,
      take-length-take (length b) (drop m.offset m.element),
      zero-add (length (left_over m b)),
    )
  where
    fits :
        (if ltb 0 (m.element_length - m.offset)
          then min (length b) (length (drop m.offset m.element))
          else 0)
        ≡ length (left_over m b)
    fits =
        ground
          (arith, length-take (length b) (drop m.offset m.element), length-drop m.offset m.element)

-- A call of `ReadNextChunk` on a buffer that is ready returns: it writes the next bytes of the
-- stream at the front of the chunk and leaves the chunk behind them as it was, it reports how many
-- it wrote, the buffer is ready to go on with the stream behind them, and it stops short of the
-- chunk's end only when nothing is left.
pub read_next_chunk-Chunked :
    (m : MemReadWriter) (rest : List ℕ) (b : Bytes)
    → Ready m rest
    → Chunked b 0 (stream m rest) (read_next_chunk m b)
read_next_chunk-Chunked m rest b v =
    let r = left_over-Reads m rest b v in
    rw (read_next_chunk_lem m b v.offset_within v.element_sized) (
      then-Chunked b 0 (stream m rest) _ rest
        (λ x. chunk_loop (m.num_elements - m.position) x.0 x.1 x.2) r
        (chunk_loop-Chunked (m.num_elements - m.position) r.after rest (fill b 0 r.out)
          (0 + length r.out) r.ready (omega (arith, v.total))
          (omega (arith, r.within, length-fill b 0 r.out r.within))
          (λ more. r.whole (omega (arith, more, length-fill b 0 r.out r.within)))))
