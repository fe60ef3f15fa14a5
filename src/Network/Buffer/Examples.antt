-- ===== src/Network/Buffer/Examples.antt =====
-- Two messages of two bytes, and small runs.
use mathlib.Core.List.{Perm, Nodup-cons, Nodup-nil, not-mem-nil, mem-cons}
use mathlib.Core.Logic.Or
use bmrng.Prelude.{
  ℕ, ◌≡◌, refl, true, Option, some, List, [], ◌∷◌, replicate, flatten, arith, length-replicate,
}
use bmrng.Prelude.Outcome.{ok, err, link_overflow, ◌>>=◌}
use bmrng.Prelude.Bytes.{Bytes, make}
use bmrng.Config.Shuffler.{Shuffler}
use bmrng.Config.Shuffler.Permutation.{Reliable}
use bmrng.Network.Buffer.{
  MemReadWriter, new, shuffle, read_element, read_partial, read_full, chunk_round, chunk_loop,
  read_next_chunk, len,
}
use bmrng.Network.Buffer.Stream.{Ready, elem_of}
use bmrng.Network.Buffer.Writes.{write_all, write_all-new}
use bmrng.Network.Buffer.Transmit.{transmit}
use bmrng.Network.Buffer.Padding.{padded}

-- The second message first; one slot of the link is empty.
abbrev loaded : MemReadWriter
loaded = record {
  messages = (1 ∷ 2 ∷ []) ∷ (3 ∷ 4 ∷ []) ∷ [] ∷ [];
  permutation = 1 ∷ 0 ∷ [];
  position = 0;
  element_length = 2;
  element_count = 2;
  offset = 2;
  element = 0 ∷ 0 ∷ [];
  zeros = 0 ∷ 0 ∷ [];
  num_elements = 2;
}

-- Three bytes: a whole message and half of the next.
three_bytes :
    read_next_chunk loaded (9 ∷ 9 ∷ 9 ∷ [])
    ≡ ok (
      record loaded {
        messages = [] ∷ [] ∷ [] ∷ [];
        position = 2;
        offset = 1;
        element = 1 ∷ 2 ∷ [];
      },
      3 ∷ 4 ∷ 1 ∷ [],
      3,
    )
unfolding read_next_chunk chunk_loop chunk_round read_partial read_full read_element
three_bytes = refl

loaded-Ready : Ready loaded (1 ∷ 0 ∷ [])
unfolding elem_of
loaded-Ready = record {
  at = refl;
  total = refl;
  distinct = Nodup-cons.1 (
    (λ m. Or.elim (λ a. absurd a) (mem-cons.0 m) (λ e. omega arith) not-mem-nil),
    Nodup-cons.1 (not-mem-nil, Nodup-nil),
  );
  counted = omega arith;
  fits = (refl, (refl, tt));
  element_sized = refl;
  offset_within = omega arith;
}

write_all-new_example : write_all (new 1 1) ((5 ∷ []) ∷ (6 ∷ []) ∷ []) ≡ err link_overflow
write_all-new_example = write_all-new 1 1 ((5 ∷ []) ∷ (6 ∷ []) ∷ [])

abbrev constant : ℕ → ℕ → Option (Bytes × ℕ)
constant src n = some (replicate n src, src)

constant-Reliable : Reliable constant
constant-Reliable = record { full = λ src n. (replicate n src, src, refl, length-replicate n src) }

transmit_example :
    (m after : MemReadWriter) × (r' : Shuffler ℕ) × (sent : List Bytes) × ((write_all
          (new 1 2)
          ((5 ∷ []) ∷ [])
        >>= λ w. shuffle constant true w (record { src = 7; buf = replicate 8 1; pos = 0 }))
      ≡ ok (m, r'))
    × (read_next_chunk m (make (len m)) ≡ ok (after, flatten sent, len m))
    × Perm sent (padded true 1 2 ((5 ∷ []) ∷ []))
transmit_example =
    transmit constant true 1 2 ((5 ∷ []) ∷ []) (record { src = 7; buf = replicate 8 1; pos = 0 })
      constant-Reliable (refl, tt) (omega arith) (omega arith) (omega arith)
