-- ===== src/Network/Batching/Examples.antt =====
-- Three messages of two bytes, read in batches of two, and writes of a byte at a time.
use bmrng.Prelude.{ℕ, ◌≡◌, refl, Option, none, List, [], ◌∷◌, ◌++◌, flatten, arith}
use bmrng.Prelude.Outcome.{Error, ok}
use bmrng.Prelude.Bytes.{Bytes, make}
use bmrng.Network.Batching.{new, calculate_batch_size, continuous_reader, send}
use bmrng.Network.Batching.Reading.{continuous_reader-flatten}
use bmrng.Network.Batching.Sending.{IsWriter, send_all}

abbrev three : List Bytes
three = (1 ∷ 2 ∷ []) ∷ (3 ∷ 4 ∷ []) ∷ (5 ∷ 6 ∷ []) ∷ []

continuous_reader-flatten_example :
    continuous_reader (new 3 2 2 (flatten three ++ (make 64 ++ (9 ∷ []))))
    ≡ ok (record (new 3 2 2 (9 ∷ [])) { signature = make 64; buff = three })
continuous_reader-flatten_example =
    continuous_reader-flatten three 2 2 (make 64) (9 ∷ []) (omega arith) (refl, (refl, (refl, tt)))
      refl

batch_test : calculate_batch_size 1500 400 ≡ 3
unfolding calculate_batch_size
batch_test = refl

abbrev one_at_a_time : Bytes → ℕ × Option Error
one_at_a_time b = (1, none)

one_at_a_time-IsWriter : IsWriter one_at_a_time
one_at_a_time-IsWriter = record {
  takes = λ b h. (omega arith, omega (arith, h));
  succeeds = λ b h. refl;
}

send_all_example : send one_at_a_time (7 ∷ 8 ∷ 9 ∷ []) ≡ ((7 ∷ 8 ∷ 9 ∷ []), ok tt)
send_all_example = send_all one_at_a_time (7 ∷ 8 ∷ 9 ∷ []) one_at_a_time-IsWriter
