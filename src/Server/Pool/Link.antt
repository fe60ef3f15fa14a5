-- ===== src/Server/Pool/Link.antt =====
-- A link from end to end: the buffer of the sender, the reader of the receiver, and its queue.
use mathlib.Core.List.{append_assoc, Perm, Permᴰ, Mem, mem-cons, not-mem-nil, Perm-prop}
use mathlib.Core.Logic.Or
use mathlib.Core.List.Perm
use mathlib.Core.Logic.{∥∥₁_elim}
use native.Mathlib.Nat.{ℕ_set}
use bmrng.Prelude.{
  ℕ, zero, suc, ◌-◌, ◌^◌, ◌≤◌, ◌<◌, ◌≡◌, refl, ap, subst, ◌∙◌, Bool, true, false, if◌then◌else◌,
  Option, List, [], ◌∷◌, ◌++◌, length, take, drop, replicate, flatten, Bool-cases, inl, inr, sym,
  length-take, length-append, take-append-drop, arith,
}
use bmrng.Prelude.Assoc.{bytes_beq, bytes_beq_iff}
use bmrng.Prelude.Outcome.{ok, ◌>>=◌}
use bmrng.Prelude.Bytes.{Bytes, make}
use bmrng.Prelude.Perms.{perm-length}
use bmrng.Crypto.Keys.{key_size, signature_size}
use bmrng.Config.Shuffler.{Shuffler}
use bmrng.Config.Shuffler.Permutation.{Reliable}
use bmrng.Network.Buffer.{MemReadWriter, shuffle, read_next_chunk, len, num_messages, new}
use bmrng.Network.Buffer.Padding.{
  Sized, padded, length-padded, Sized-padded, padded_dummies, padded_plain,
}
use bmrng.Network.Buffer.Transmit.{transmit_counted}
use bmrng.Network.Buffer.Writes.{write_all}
use bmrng.Network.Batching.{continuous_reader, new as new_reader}
use bmrng.Network.Batching.Reading.{continuous_reader-flatten, flatten-split, Sized-take}
use bmrng.Server.Pool.{jobs_of}
use bmrng.Server.Pool.Streaming.{not_dummies, IsLong, jobs_of-not_dummies}

-- No message has a key of zeros.
abbrev pub IsReal : List Bytes → Type 0
IsReal [] = Unit
IsReal (m ∷ ms) = (bytes_beq (take key_size m) (make key_size) ≡ false) × IsReal ms

Sized-Mem : (l : ℕ) (ms : List Bytes) {m : Bytes} → Sized l ms → Mem m ms → length m ≡ l
Sized-Mem l [] h i = absurd (not-mem-nil i)
Sized-Mem l (x ∷ ms) {m} (e, h) i =
    Or.elim (ℕ_set (length m) l) (mem-cons.0 i) (λ q. ap length q ∙ e) (Sized-Mem l ms h)

Sized-all : (l : ℕ) (ms : List Bytes) → ((m : Bytes) → Mem m ms → length m ≡ l) → Sized l ms
Sized-all l [] h = tt
Sized-all l (x ∷ ms) h =
    (h x (mem-cons.1 (Or.inl refl)), Sized-all l ms (λ m i. h m (mem-cons.1 (Or.inr i))))

Sized-perm : (l : ℕ) (xs ys : List Bytes) → Perm xs ys → Sized l ys → Sized l xs
Sized-perm l xs ys p h = Sized-all l xs (λ m i. Sized-Mem l ys h ((Perm.mem_iff p).0 i))

Sized-IsLong : (l : ℕ) (ms : List Bytes) → key_size ≤ l → Sized l ms → IsLong key_size ms
Sized-IsLong l [] h s = tt
Sized-IsLong l (m ∷ ms) h (e, s) = (omega (arith, h, e), Sized-IsLong l ms h s)

not_dummies-swap :
    (n : ℕ) (a b : Bytes) (l : List Bytes)
    → Perm (not_dummies n (a ∷ b ∷ l)) (not_dummies n (b ∷ a ∷ l))
unfolding not_dummies
not_dummies-swap n a b l =
    cases (bytes_beq (take n a) (make n)) (bytes_beq (take n b) (make n)) (not_dummies n l)
  where
    cases :
        (x y : Bool) (ms : List Bytes)
        → Perm
            (let rest = (if y then ms else b ∷ ms) in if x then rest else a ∷ rest)
            (let rest = (if x then ms else a ∷ ms) in if y then rest else b ∷ rest)
    cases true true ms = Perm.refl ms
    cases true false ms = Perm.refl (b ∷ ms)
    cases false true ms = Perm.refl (a ∷ ms)
    cases false false ms = Perm.swap b a ms

not_dummies-cons :
    (n : ℕ) (a : Bytes) (xs ys : List Bytes)
    → Perm (not_dummies n xs) (not_dummies n ys)
    → Perm (not_dummies n (a ∷ xs)) (not_dummies n (a ∷ ys))
unfolding not_dummies
not_dummies-cons n a xs ys p = elim (Bool-cases (bytes_beq (take n a) (make n))) [
  | inl dummy ↦ rw dummy p
  | inr real ↦ rw real (Perm.cons a p)
]

not_dummies-permᴰ :
    (n : ℕ) {xs ys : List Bytes} → Permᴰ xs ys → Perm (not_dummies n xs) (not_dummies n ys)
not_dummies-permᴰ n Permᴰ.nil = Perm.refl (not_dummies n [])
not_dummies-permᴰ n (Permᴰ.cons {a} {b} {l₁} {l₂} e p) =
    subst (λ c. Perm (not_dummies n (a ∷ l₁)) (not_dummies n (c ∷ l₂))) e
      (not_dummies-cons n a l₁ l₂ (not_dummies-permᴰ n p))
not_dummies-permᴰ n (Permᴰ.swap {a} {b} {a'} {b'} {l} e f) =
    subst (λ c. Perm (not_dummies n (a ∷ b ∷ l)) (not_dummies n (a' ∷ c ∷ l))) e
      (subst (λ c. Perm (not_dummies n (a ∷ b ∷ l)) (not_dummies n (c ∷ a ∷ l))) f
        (not_dummies-swap n a b l))
not_dummies-permᴰ n (Permᴰ.trans p q) = Perm.trans (not_dummies-permᴰ n p) (not_dummies-permᴰ n q)

take-make : (n l : ℕ) → n ≤ l → take n (make l) ≡ make n
take-make zero l h = refl
take-make (suc n) zero h = absurd (omega (arith, h))
take-make (suc n) (suc l) h = ap (◌∷◌ 0) (take-make n l (omega (arith, h)))

-- The padding is dropped again, and nothing else is.
not_dummies-padded :
    (l k : ℕ) (bs : List Bytes)
    → key_size ≤ l
    → IsReal bs
    → not_dummies key_size (bs ++ replicate k (make l)) ≡ bs
unfolding not_dummies
not_dummies-padded l zero [] h real = refl
not_dummies-padded l (suc k) [] h real =
    rw ((bytes_beq_iff (take key_size (make l)) (make key_size)).1 (take-make key_size l h))
      (not_dummies-padded l k [] h real)
not_dummies-padded l k (b ∷ bs) h (real, reals) =
    rw real (ap (◌∷◌ b) (not_dummies-padded l k bs h reals))

not_dummies-real : (bs : List Bytes) → IsReal bs → not_dummies key_size bs ≡ bs
unfolding not_dummies
not_dummies-real [] real = refl
not_dummies-real (b ∷ bs) (real, reals) = rw real (ap (◌∷◌ b) (not_dummies-real bs reals))

length-padded_full :
    (dummies : Bool) (l n : ℕ) (bs : List Bytes)
    → length bs ≤ n
    → (if dummies then n else length bs) ≡ length bs
    → length (padded dummies l n bs) ≡ length bs
length-padded_full dummies l n bs room full = length-padded dummies l n bs room ∙ full

not_dummies-padded_any :
    (dummies : Bool) (l n : ℕ) (bs : List Bytes)
    → key_size ≤ l
    → IsReal bs
    → not_dummies key_size (padded dummies l n bs) ≡ bs
not_dummies-padded_any true l n bs h real =
    ap (not_dummies key_size) (padded_dummies l n bs)
    ∙ not_dummies-padded l (n - length bs) bs h real
not_dummies-padded_any false l n bs h real =
    ap (not_dummies key_size) (padded_plain l n bs) ∙ not_dummies-real bs real

-- A link delivers. Real messages, of a length that holds a key and none with a key of zeros, are
-- written to the buffer of a link, shuffled, and read out in one chunk; the reader of the link, which
-- is told the number that the buffer's `NumMessages` says, whatever its batch size is, gets the chunk
-- and the signature behind it; and the jobs that it queues are a permutation of the messages: none is
-- lost and none is made up. This holds if no dummies are sent, or the link is full so that none are
-- missing, if the link has room for the messages, they are fewer than 2^32, and the source of
-- randomness fills its buffers, of which the shuffler's holds a 32-bit number.
pub transmit-jobs_of :
    {S : Type 0} (read : S → ℕ → Option (Bytes × S)) (dummies : Bool) (l n base : ℕ)
    (bs : List Bytes) (r : Shuffler S) (s rest : Bytes)
    → Reliable read
    → key_size ≤ l
    → Sized l bs
    → IsReal bs
    → length bs ≤ n
    → (if dummies then n else length bs) ≡ length bs
    → 4 ≤ length r.buf
    → n < 2 ^ 32
    → length s ≡ signature_size
    → (m : MemReadWriter) × (after : MemReadWriter) × (r' : Shuffler S) × (sent : List Bytes)
      × (jobs : List Bytes) × ((write_all (new l n) bs >>= λ w. shuffle read dummies w r)
          ≡ ok (m, r'))
      × (read_next_chunk m (make (len m)) ≡ ok (after, flatten sent, len m))
      × (continuous_reader (new_reader (num_messages m) l base (flatten sent ++ (s ++ rest)))
          ≡ ok (record (new_reader (num_messages m) l base rest) { signature = s; buff = sent }))
      × (jobs_of sent ≡ ok jobs)
      × Perm jobs bs
transmit-jobs_of read dummies l n base bs r s rest reliable large sized real room full big fits
      sig =
    let (m, after, r', sent, shuffled, chunk, p, counted) =
      transmit_counted read dummies l n bs r reliable sized room big fits in
    let all = padded dummies l n bs in
    let sized' = Sized-perm l sent all p (Sized-padded dummies l n bs sized) in
    let count : length sent ≡ num_messages m =
      perm-length p ∙ (length-padded_full dummies l n bs room full ∙ sym counted) in
    (
      m,
      after,
      r',
      sent,
      not_dummies key_size sent,
      shuffled,
      chunk,
      subst
          (λ k.
            continuous_reader (new_reader k l base (flatten sent ++ (s ++ rest)))
            ≡ ok (record (new_reader k l base rest) { signature = s; buff = sent }))
          count (continuous_reader-flatten sent l base s rest (omega (arith, large)) sized' sig),
      jobs_of-not_dummies sent (Sized-IsLong l sent large sized'),
      subst (Perm (not_dummies key_size sent)) (not_dummies-padded_any dummies l n bs large real) (
          ∥∥₁_elim p (Perm-prop {l₁ = not_dummies key_size sent} {l₂ = not_dummies key_size all})
            (not_dummies-permᴰ key_size)),
    )

-- A link with dummies that is not full is cut short. The reader is told the number of messages that
-- were written, while the chunk has a block for each place of the link. So it puts only the first
-- blocks of the chunk into its channel, as many as there were messages, and reads as the signature the
-- bytes behind them, which are of the blocks left and of the real signature: if messages of the link's
-- length, fewer than its places, are sent with dummies, under the conditions of randomness that a
-- link works under.
pub transmit-cut :
    {S : Type 0} (read : S → ℕ → Option (Bytes × S)) (l n base : ℕ) (bs : List Bytes)
    (r : Shuffler S) (s rest : Bytes)
    → Reliable read
    → 0 < l
    → Sized l bs
    → length bs < n
    → 4 ≤ length r.buf
    → n < 2 ^ 32
    → length s ≡ signature_size
    → (m : MemReadWriter) × (after : MemReadWriter) × (r' : Shuffler S) × (sent : List Bytes)
      × ((write_all (new l n) bs >>= λ w. shuffle read true w r) ≡ ok (m, r'))
      × (read_next_chunk m (make (len m)) ≡ ok (after, flatten sent, len m))
      × (length sent ≡ n)
      × (let behind = flatten (drop (length bs) sent) ++ (s ++ rest) in
          continuous_reader (new_reader (num_messages m) l base (flatten sent ++ (s ++ rest)))
          ≡ ok (record (new_reader (num_messages m) l base (drop signature_size behind)) {
            signature = take signature_size behind;
            buff = take (length bs) sent;
          }))
transmit-cut read l n base bs r s rest reliable large sized room big fits sig =
    let (m, after, r', sent, shuffled, chunk, p, counted) =
      transmit_counted read true l n bs r reliable sized (omega (arith, room)) big fits in
    let sized' = Sized-perm l sent (padded true l n bs) p (Sized-padded true l n bs sized) in
    let count : length sent ≡ n = perm-length p ∙ length-padded true l n bs (omega (arith, room)) in
    let k = length bs in
    let front = take k sent in
    let behind = flatten (drop k sent) ++ (s ++ rest) in
    let cut : flatten sent ++ (s ++ rest)
        ≡ flatten front ++ (take signature_size behind ++ drop signature_size behind) =
      ap (λ b. b ++ (s ++ rest)) (flatten-split k sent)
      ∙ (append_assoc (flatten front) (flatten (drop k sent)) (s ++ rest)
          ∙ ap (◌++◌ (flatten front)) (sym (take-append-drop signature_size behind))) in
    let told : length front ≡ num_messages m =
      omega (arith, length-take k sent, count, counted, room) in
    (
      m,
      after,
      r',
      sent,
      shuffled,
      chunk,
      count,
      subst
          (λ c.
            continuous_reader (new_reader c l base (flatten sent ++ (s ++ rest)))
            ≡ ok (record (new_reader c l base (drop signature_size behind)) {
              signature = take signature_size behind;
              buff = front;
            }))
          told
          (ap (λ b. continuous_reader (new_reader (length front) l base b)) cut
            ∙ continuous_reader-flatten front l base (take signature_size behind)
                (drop signature_size behind) large (Sized-take l k sent sized')
                (omega (
                  arith,
                  length-take signature_size behind,
                  length-append (flatten (drop k sent)) (s ++ rest),
                  length-append s rest,
                  sig,
                ))),
    )
