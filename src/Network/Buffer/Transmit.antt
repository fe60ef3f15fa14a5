-- ===== src/Network/Buffer/Transmit.antt =====
-- A buffer from its first `Write` to the bytes on the wire, as network/send_chunks.go and
-- network/batching.go use it: write, shuffle, and one `ReadNextChunk` of `Len` bytes.
use mathlib.Core.List.{Perm, append-nil}
use mathlib.Core.List.Perm
use native.Mathlib.Nat.{zero-add}
use bmrng.Prelude.{
  ℕ, ◌+◌, ◌-◌, ◌*◌, ◌^◌, ◌≤◌, ◌<◌, ◌≡◌, refl, sym, ap, subst, if◌then◌else◌, Bool, Option, List, [],
  ◌∷◌, ◌++◌, map, length, flatten, drop_all, replicate, length-append, length-replicate, arith, ◌∙◌,
  inl, inr, le→leb, length-map,
}
use bmrng.Prelude.Outcome.{Outcome, ok, ◌>>=◌}
use bmrng.Prelude.Bytes.{Bytes, make}
use bmrng.Prelude.Perms.{perm-length}
use bmrng.Config.Shuffler.{Shuffler, count_up, perm}
use bmrng.Config.Shuffler.Permutation.{
  Reliable, perm-perm, length-count_up, mem-count_up, Nodup-count_up,
}
use bmrng.Network.Buffer.{MemReadWriter, new, shuffle, read_next_chunk, len, num_messages}
use bmrng.Network.Buffer.Stream.{elem_at, stream, Ready}
use bmrng.Network.Buffer.Chunks.{Chunked, read_next_chunk-Chunked}
use bmrng.Network.Buffer.Writes.{holding, write_all, write_all-new}
use bmrng.Network.Buffer.Padding.{
  Sized, padded, Sized-get_or, shuffled, Fits-of, Sized-Fits, elems-flatten, length-flatten,
  map-count_up, elem_at-padded, length-padded, Sized-padded, padded-lt,
}

nil_of_length : (b : Bytes) → length b ≡ 0 → b ≡ []
nil_of_length [] e = refl
nil_of_length (x ∷ b) e = absurd (omega arith)

-- A chunk as long as all that is left takes it all.
all_said :
    (b said : Bytes) (o : Outcome (MemReadWriter × Bytes × ℕ)) (c : Chunked b 0 said o)
    → length said ≡ length b
    → o ≡ ok (c.after, said, length b)
all_said b said o c e =
    let cut : length said ≡ length c.out + length (stream c.after c.rest) =
      ap length c.split ∙ length-append c.out (stream c.after c.rest) in
    let nothing : stream c.after c.rest ≡ [] = elim c.finished [
      | inl full ↦ nil_of_length (stream c.after c.rest) (omega arith)
      | inr left ↦ left
    ] in
    let out_is_said : said ≡ c.out = c.split ∙ (ap (◌++◌ c.out) nothing ∙ append-nil c.out) in
    let full : 0 + length c.out ≡ length b = omega (arith, ap length out_is_said) in
    c.result ∙ rw (full, drop_all (length b) b (omega arith), append-nil) (rw out_is_said refl)

-- The buffer after the writes and the shuffle is ready to say all of `padded`, in the order of the
-- permutation.
module _ (dummies : Bool) (l n : ℕ) (bs : List Bytes) (pi : List ℕ) (sized : Sized l bs)
    (room : length bs ≤ n)
    (shuffled_up : Perm pi (count_up 0 (length (padded dummies l n bs)))) where
  shuffled-Ready : Ready (shuffled dummies l n bs pi) pi
  shuffled-Ready = record {
    at = refl;
    total =
        zero-add (length pi)
        ∙ (perm-length shuffled_up
            ∙ (length-count_up 0 (length (padded dummies l n bs))
                ∙ length-padded dummies l n bs room));
    distinct = Perm.nodup (Perm.symm shuffled_up) (Nodup-count_up 0 _);
    counted = omega (arith, length-append bs (replicate (n - length bs) []));
    fits = Fits-of (shuffled dummies l n bs pi) pi (λ i m.
        let lt = (mem-count_up 0 _ ((Perm.mem_iff shuffled_up).0 m)).1 in
        let below : i < length (padded dummies l n bs) = omega arith in
        rw (elem_at-padded dummies l n bs pi i below)
          (Sized-get_or l (padded dummies l n bs) i (Sized-padded dummies l n bs sized) below));
    element_sized = length-replicate l 0;
    offset_within = omega arith;
  }

  sent-perm : Perm (map (elem_at (shuffled dummies l n bs pi)) pi) (padded dummies l n bs)
  sent-perm =
      subst (Perm (map (elem_at (shuffled dummies l n bs pi)) pi))
        (map-count_up (elem_at (shuffled dummies l n bs pi)) 0 (padded dummies l n bs)
          (λ j lt. rw (zero-add j) (elem_at-padded dummies l n bs pi j lt)))
        (Perm.map (elem_at (shuffled dummies l n bs pi)) shuffled_up)

  said-flatten :
      stream (shuffled dummies l n bs pi) pi
      ≡ flatten (map (elem_at (shuffled dummies l n bs pi)) pi)
  said-flatten =
      rw (drop_all l (make l) (omega (arith, length-replicate {A = ℕ} l 0)))
        (elems-flatten (shuffled dummies l n bs pi) pi)

  length-said : length (stream (shuffled dummies l n bs pi) pi) ≡ len (shuffled dummies l n bs pi)
  unfolding len
  length-said =
      ap length said-flatten
      ∙ (length-flatten l (map (elem_at (shuffled dummies l n bs pi)) pi)
            (Sized-Fits (shuffled dummies l n bs pi) pi shuffled-Ready.fits)
          ∙ ap (λ k. k * l)
              (length-map pi (elem_at (shuffled dummies l n bs pi))
                ∙ (sym (zero-add (length pi)) ∙ shuffled-Ready.total)))

  -- One chunk of the whole length takes all.
  whole_chunk :
      (after : MemReadWriter) × (read_next_chunk
          (shuffled dummies l n bs pi)
          (make (len (shuffled dummies l n bs pi)))
        ≡ ok (
          after,
          flatten (map (elem_at (shuffled dummies l n bs pi)) pi),
          len (shuffled dummies l n bs pi),
        ))
  whole_chunk =
      let m = shuffled dummies l n bs pi in
      let c = read_next_chunk-Chunked m pi (make (len m)) shuffled-Ready in
      let size : length (make (len m)) ≡ len m = length-replicate {A = ℕ} (len m) 0 in
      (
        c.after,
        all_said (make (len m)) (stream m pi) (read_next_chunk m (make (len m))) c
              (length-said ∙ sym size)
            ∙ rw (size, said-flatten),
      )

shuffle-holding :
    {S : Type 0} (read : S → ℕ → Option (Bytes × S)) (dummies : Bool) (l n : ℕ) (bs : List Bytes)
    (r r' : Shuffler S) (pi : List ℕ)
    → perm read (if dummies then n else length bs) r ≡ ok (pi, r')
    → shuffle read dummies (holding l n bs (n - length bs)) r ≡ ok (shuffled dummies l n bs pi, r')
unfolding shuffle
shuffle-holding read dummies l n bs r r' pi e = rw e

-- `transmit` with the number of messages that the buffer says it has.
pub transmit_counted :
    {S : Type 0} (read : S → ℕ → Option (Bytes × S)) (dummies : Bool) (l n : ℕ) (bs : List Bytes)
    (r : Shuffler S)
    → Reliable read
    → Sized l bs
    → length bs ≤ n
    → 4 ≤ length r.buf
    → n < 2 ^ 32
    → (m after : MemReadWriter) × (r' : Shuffler S) × (sent : List Bytes) × ((write_all (new l n) bs
          >>= λ w. shuffle read dummies w r)
        ≡ ok (m, r'))
      × (read_next_chunk m (make (len m)) ≡ ok (after, flatten sent, len m))
      × Perm sent (padded dummies l n bs)
      × (num_messages m ≡ length bs)
unfolding num_messages
transmit_counted read dummies l n bs r reliable sized room big fits =
    let known = length-padded dummies l n bs room in
    let (pi, r', e, p) =
      perm-perm read reliable (length (padded dummies l n bs)) r big
        (padded-lt dummies l n bs room fits) in
    let (after, all) = whole_chunk dummies l n bs pi sized room p in
    (
      shuffled dummies l n bs pi,
      after,
      r',
      map (elem_at (shuffled dummies l n bs pi)) pi,
      rw (write_all-new l n bs, le→leb (length bs) n room)
          (shuffle-holding read dummies l n bs r r' pi
            (subst (λ k. perm read k r ≡ ok (pi, r')) known e)),
      all,
      sent-perm dummies l n bs pi sized room p,
      refl,
    )

-- Messages of the link's length, at most as many as the link holds, written to a new buffer in any
-- order of calls: the writes and `Shuffle` return, and one `ReadNextChunk` of `Len` bytes returns
-- exactly the messages one behind the other, in the order of a permutation of them; with dummies,
-- of the messages and as many blocks of zeros as were missing. (The source of randomness fills its
-- buffers, the shuffler's buffer holds a 32-bit number, and there are fewer than 2^32 elements.)
pub transmit :
    {S : Type 0} (read : S → ℕ → Option (Bytes × S)) (dummies : Bool) (l n : ℕ) (bs : List Bytes)
    (r : Shuffler S)
    → Reliable read
    → Sized l bs
    → length bs ≤ n
    → 4 ≤ length r.buf
    → n < 2 ^ 32
    → (m after : MemReadWriter) × (r' : Shuffler S) × (sent : List Bytes) × ((write_all (new l n) bs
          >>= λ w. shuffle read dummies w r)
        ≡ ok (m, r'))
      × (read_next_chunk m (make (len m)) ≡ ok (after, flatten sent, len m))
      × Perm sent (padded dummies l n bs)
transmit read dummies l n bs r reliable sized room big fits =
    let (m, after, r', sent, written, chunk, p, count) =
      transmit_counted read dummies l n bs r reliable sized room big fits in
    (m, after, r', sent, written, chunk, p)
