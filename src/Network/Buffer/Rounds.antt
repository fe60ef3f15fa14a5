-- ===== src/Network/Buffer/Rounds.antt =====
-- One round of the loop of `ReadNextChunk`: the next bytes of the stream go into the chunk.
use mathlib.Core.List.{Nodup-cons, append_assoc}
use bmrng.Prelude.{
  ℕ, ◌+◌, ◌-◌, ◌≤◌, ◌<◌, min, ◌≡◌, sym, ap, ltb, inl, inr, List, ◌∷◌, ◌++◌, length, take, drop,
  length-take, length-drop, drop_all, fill, take-append-drop, arith, Bool-cases,
}
use bmrng.Prelude.Outcome.{Outcome, ok}
use bmrng.Prelude.Bytes.{Bytes}
use bmrng.Network.Buffer.{MemReadWriter, read_partial, read_full, chunk_round}
use bmrng.Network.Buffer.Stream.{
  elem_at, elems, elems_of, stream, Ready, consume, elems-consume, read_element_lem, consume-Ready,
}

-- `o` has put `out` into `b` at `w`, and `out` is what the stream lost at its front.
pub record Reads (b : Bytes) (w : ℕ) (said : Bytes) (o : Outcome (MemReadWriter × Bytes × ℕ))
    (rest : List ℕ) : Type 0 where
  pub after : MemReadWriter
  pub out : Bytes
  pub result : o ≡ ok (after, fill b w out, w + length out)
  pub ready : Ready after rest
  pub split : said ≡ out ++ stream after rest
  pub within : w + length out ≤ length b
  pub whole : w + length out < length b → after.offset ≡ after.element_length

elems-cons :
    (m : MemReadWriter) (i : ℕ) (rest : List ℕ)
    → Ready m (i ∷ rest)
    → elems m (i ∷ rest) ≡ elem_at m i ++ elems (consume m i) rest
unfolding elems_of
elems-cons m i rest v =
    ap (◌++◌ (elem_at m i)) (sym (elems-consume m i rest (Nodup-cons.0 v.distinct).0))

read_full-Reads :
    (m : MemReadWriter) (i : ℕ) (rest : List ℕ) (b : Bytes) (w : ℕ)
    → Ready m (i ∷ rest)
    → w + m.element_length ≤ length b
    → m.offset ≡ m.element_length
    → Reads b w (stream m (i ∷ rest)) (read_full m b w) rest
unfolding read_full consume
read_full-Reads m i rest b w v room done = record {
  after = consume m i;
  out = elem_at m i;
  result = rw (
    read_element_lem m i rest (take m.element_length (drop w b)) v
        (omega (arith, length-take m.element_length (drop w b), length-drop w b)),
    v.fits.0,
  );
  ready = consume-Ready m i rest v;
  split = rw (drop_all m.offset m.element (omega (arith, v)), elems-cons m i rest v);
  within = omega (arith, v.fits.0);
  whole = λ _. done;
}

read_partial-Reads :
    (m : MemReadWriter) (i : ℕ) (rest : List ℕ) (b : Bytes) (w : ℕ)
    → Ready m (i ∷ rest)
    → w ≤ length b
    → length b < w + m.element_length
    → m.offset ≡ m.element_length
    → Reads b w (stream m (i ∷ rest)) (read_partial m b w) rest
unfolding read_partial consume
read_partial-Reads m i rest b w v below short done =
    let whole = elem_at m i in
    let n = min (length b - w) (length whole) in
    let fits : length whole ≡ m.element_length = v.fits.0 in
    let cut : length (take (length b - w) whole) ≡ n = length-take (length b - w) whole in
    let full : n ≡ length b - w = omega arith in
    let next = consume-Ready m i rest v in
    record {
      after = record (consume m i) { element = whole; offset = n };
      out = take (length b - w) whole;
      result = rw (read_element_lem m i rest m.element v v.element_sized, cut);
      ready = record {
        at = next.at;
        total = next.total;
        distinct = next.distinct;
        counted = next.counted;
        fits = next.fits;
        element_sized = fits;
        offset_within = omega arith;
      };
      split = rw (
        drop_all m.offset m.element (omega (arith, v)),
        elems-cons m i rest v,
        full,
        ← append_assoc (take (length b - w) whole) (drop (length b - w) whole)
            (elems (consume m i) rest),
        take-append-drop (length b - w) whole,
      );
      within = omega arith;
      whole = λ lt. absurd (omega arith);
    }

pub chunk_round-Reads :
    (m : MemReadWriter) (i : ℕ) (rest : List ℕ) (b : Bytes) (w : ℕ)
    → Ready m (i ∷ rest)
    → w ≤ length b
    → m.offset ≡ m.element_length
    → Reads b w (stream m (i ∷ rest)) (chunk_round m b w) rest
unfolding chunk_round
chunk_round-Reads m i rest b w v below done =
    elim (Bool-cases (ltb (length b) (w + m.element_length))) [
      | inl short ↦ rw short (read_partial-Reads m i rest b w v below (ground arith) done)
      | inr room ↦ rw room (read_full-Reads m i rest b w v (ground arith) done)
    ]
