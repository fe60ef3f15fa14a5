-- ===== src/Network/Buffer/Writes.antt =====
-- `Write` on a new buffer: the messages are stored in order until the link overflows.
use mathlib.Core.List.{append_assoc, append-nil}
use bmrng.Prelude.{
  ℕ, zero, suc, ◌-◌, ◌≡◌, refl, ap, leb, if◌then◌else◌, List, [], ◌∷◌, ◌++◌, length, set, replicate,
  length-append, arith, lt→leb,
}
use bmrng.Prelude.Outcome.{Outcome, ok, err, link_overflow, ◌>>=◌}
use bmrng.Prelude.Bytes.{Bytes, make}
use bmrng.Network.Buffer.{MemReadWriter, new, write}

-- A buffer that holds `done`, with room for `d` more messages.
abbrev pub holding : ℕ → ℕ → List Bytes → ℕ → MemReadWriter
holding element_length num_elements done d = record {
  messages = done ++ replicate d [];
  permutation = [];
  position = 0;
  element_length = element_length;
  element_count = length done;
  offset = element_length;
  element = make element_length;
  zeros = make element_length;
  num_elements = num_elements;
}

pub write_all : MemReadWriter → List Bytes → Outcome MemReadWriter
write_all m [] = ok m
write_all m (b ∷ bs) = write m b >>= λ m'. write_all m' bs

set-length :
    (done rest : List Bytes) (b x : Bytes)
    → set (done ++ x ∷ rest) (length done) b ≡ (done ++ b ∷ []) ++ rest
set-length [] rest b x = refl
set-length (y ∷ done) rest b x = ap (◌∷◌ y) (set-length done rest b x)

write-room :
    (l n : ℕ) (done : List Bytes) (d : ℕ) (b : Bytes)
    → write (holding l n done (suc d)) b ≡ ok (holding l n (done ++ b ∷ []) d)
unfolding write
write-room l n done d b = ground (
  arith,
  length-append done ([] ∷ replicate d []),
  length-append done (b ∷ []),
  set-length done (replicate d []) b [],
)

write-full :
    (l n : ℕ) (done : List Bytes) (b : Bytes) → write (holding l n done 0) b ≡ err link_overflow
unfolding write
write-full l n done b = ground (arith, length-append done [])

write_all-holding :
    (l n : ℕ) (bs done : List Bytes) (d : ℕ)
    → write_all (holding l n done d) bs ≡ (
        if leb (length bs) d
        then ok (holding l n (done ++ bs) (d - length bs))
        else err link_overflow)
unfolding write_all
write_all-holding l n [] done d = ground (arith, append-nil done)
write_all-holding l n (b ∷ bs) done zero =
    rw (write-full l n done b, lt→leb (suc (length bs)) 0 (omega arith))
write_all-holding l n (b ∷ bs) done (suc d) =
    rw (write-room l n done d b)
      (ground (arith, write_all-holding l n bs (done ++ b ∷ []) d, append_assoc done (b ∷ []) bs))

-- Messages written to a new buffer for `n` elements are all stored, in the order of the calls, if
-- there are at most `n`; otherwise one of the calls fails with a link overflow.
pub write_all-new :
    (l n : ℕ) (bs : List Bytes)
    → write_all (new l n) bs
      ≡ (if leb (length bs) n then ok (holding l n bs (n - length bs)) else err link_overflow)
unfolding new
write_all-new l n bs = write_all-holding l n bs [] n
