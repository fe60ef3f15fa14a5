-- ===== src/Server/Pool/Examples.antt =====
-- A link for two messages of 32 bytes, one of which is sent, and what is queued of it.
use mathlib.Core.List.{Perm}
use bmrng.Prelude.{
  ℕ, ◌≡◌, refl, true, false, length, take, drop, List, [], ◌∷◌, ◌++◌, flatten, replicate, arith,
}
use bmrng.Prelude.Assoc.{bytes_beq}
use bmrng.Prelude.Outcome.{ok, ◌>>=◌}
use bmrng.Prelude.Bytes.{Bytes, make}
use bmrng.Config.Shuffler.{Shuffler}
use bmrng.Config.Shuffler.Examples.{constant, constant-Reliable}
use bmrng.Network.Buffer.{MemReadWriter, shuffle, read_next_chunk, len, num_messages, new}
use bmrng.Network.Buffer.Writes.{write_all}
use bmrng.Network.Batching.{continuous_reader, new as new_reader}
use bmrng.Server.Pool.{jobs_of}
use bmrng.Server.Pool.Link.{IsReal, transmit-jobs_of, transmit-cut}

abbrev one_message : List Bytes
one_message = (5 ∷ make 31) ∷ []

abbrev one_message-IsReal : IsReal one_message
unfolding bytes_beq
one_message-IsReal = (refl, tt)

abbrev filled : Shuffler ℕ
filled = record { src = 7; buf = replicate 8 1; pos = 0 }

transmit-jobs_of_example :
    (m : MemReadWriter) × (after : MemReadWriter) × (r' : Shuffler ℕ) × (sent : List Bytes)
    × (jobs : List Bytes) × ((write_all (new 32 2) one_message >>= λ w.
          shuffle constant false w filled)
        ≡ ok (m, r'))
    × (read_next_chunk m (make (len m)) ≡ ok (after, flatten sent, len m))
    × (continuous_reader (new_reader (num_messages m) 32 1 (flatten sent ++ (make 64 ++ (9 ∷ []))))
        ≡ ok (record (new_reader (num_messages m) 32 1 (9 ∷ [])) {
          signature = make 64;
          buff = sent;
        }))
    × (jobs_of sent ≡ ok jobs)
    × Perm jobs one_message
transmit-jobs_of_example =
    transmit-jobs_of constant false 32 2 1 one_message filled (make 64) (9 ∷ []) constant-Reliable
      (omega arith) (refl, tt) one_message-IsReal (omega arith) refl (omega arith) (omega arith)
      refl

transmit-cut_example :
    (m : MemReadWriter) × (after : MemReadWriter) × (r' : Shuffler ℕ) × (sent : List Bytes)
    × ((write_all (new 32 2) one_message >>= λ w. shuffle constant true w filled) ≡ ok (m, r'))
    × (read_next_chunk m (make (len m)) ≡ ok (after, flatten sent, len m))
    × (length sent ≡ 2)
    × (let behind = flatten (drop 1 sent) ++ (make 64 ++ (9 ∷ [])) in
        continuous_reader (new_reader (num_messages m) 32 1 (flatten sent ++ (make 64 ++ (9 ∷ []))))
        ≡ ok (record (new_reader (num_messages m) 32 1 (drop 64 behind)) {
          signature = take 64 behind;
          buff = take 1 sent;
        }))
transmit-cut_example =
    transmit-cut constant 32 2 1 one_message filled (make 64) (9 ∷ []) constant-Reliable
      (omega arith) (refl, tt) (omega arith) (omega arith) (omega arith) refl
