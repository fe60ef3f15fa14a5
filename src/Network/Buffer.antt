-- ===== src/Network/Buffer.antt =====
-- network/buffers/inMemory.go: the messages for one link, written in any order, shuffled, and read
-- out in chunks. The shuffler is shared by the buffers of all layers, so it is passed in and out.
pub mod Stream
pub mod Rounds
pub mod Chunks
pub mod Writes
pub mod Padding
pub mod Transmit
pub mod Examples
use bmrng.Prelude.{
  ℕ, zero, suc, ◌+◌, ◌-◌, ◌*◌, ◌≤◌, min, leb, ltb, if◌then◌else◌, Bool, true, false, ◌&&◌, Option,
  none, some, List, [], ◌∷◌, ◌++◌, length, get_elem?, set, take, drop, replicate,
}
use bmrng.Prelude.Outcome.{Outcome, ok, err, panic, link_overflow, ◌>>=◌}
use bmrng.Prelude.Bytes.{Bytes, make}
use bmrng.Config.Shuffler.{Shuffler, perm}

-- A `nil` entry of `data` is the empty slice.
pub record MemReadWriter : Type 0 where
  pub messages : List Bytes
  pub permutation : List ℕ
  pub position : ℕ
  pub element_length : ℕ
  pub element_count : ℕ
  pub offset : ℕ
  pub element : Bytes
  pub zeros : Bytes
  pub num_elements : ℕ

-- `NewMemReadWriter`.
unfoldable pub new : ℕ → ℕ → MemReadWriter
new element_length num_elements = record {
  messages = replicate num_elements [];
  permutation = [];
  position = 0;
  element_length = element_length;
  element_count = 0;
  offset = element_length;
  element = make element_length;
  zeros = make element_length;
  num_elements = num_elements;
}

module _ {S : Type 0} (read : S → ℕ → Option (Bytes × S)) where
  -- `Shuffle`: without dummies only the written messages are permuted.
  unfoldable pub shuffle : Bool → MemReadWriter → Shuffler S → Outcome (MemReadWriter × Shuffler S)
  shuffle dummies m r = do
    let n = if dummies then m.num_elements else m.element_count
    (pi, r') ← perm read n r
    ok (record m { num_elements = n; permutation = pi }, r')

unfoldable pub num_messages : MemReadWriter → ℕ
num_messages m = m.element_count

unfoldable pub write : MemReadWriter → Bytes → Outcome MemReadWriter
write m b =
    if leb (length m.messages) m.element_count
    then err link_overflow
    else ok (record m {
      messages = set m.messages m.element_count b;
      element_count = m.element_count + 1;
    })

-- `copy(b, src)`: the bytes of `b` behind the copied ones stay.
abbrev pub overwrite : Bytes → Bytes → Bytes
overwrite b src = take (length b) src ++ drop (length src) b

-- `ReadElement` into `b`: a dummy is all zeros; a message is freed when it has been read.
unfoldable pub read_element : MemReadWriter → Bytes → Outcome (MemReadWriter × Bytes)
read_element r b = elim (get_elem? r.permutation r.position) [
  | none ↦ panic
  | some i ↦
      if leb r.element_count i
      then ok (record r { position = r.position + 1 }, overwrite b r.zeros)
      else elim (get_elem? r.messages i) [
        | none ↦ panic
        | some message ↦ ok (
          record r { position = r.position + 1; messages = set r.messages i [] },
          overwrite b message,
        )
      ]
]

-- The partial read: through `element`, whose rest is left for the next call.
unfoldable pub read_partial : MemReadWriter → Bytes → ℕ → Outcome (MemReadWriter × Bytes × ℕ)
read_partial r b written = do
  (r', whole) ← read_element r r.element
  let n = min (length b - written) (length whole)
  ok (
    record r' { element = whole; offset = n },
    take written b ++ (take (length b - written) whole ++ drop (written + n) b),
    written + n,
  )

-- The full read, into the window of `b` at `written`.
unfoldable pub read_full : MemReadWriter → Bytes → ℕ → Outcome (MemReadWriter × Bytes × ℕ)
read_full r b written = do
  (r', part) ← read_element r (take r.element_length (drop written b))
  ok (
    r',
    take written b ++ (part ++ drop (written + r.element_length) b),
    written + r.element_length,
  )

-- One round of the loop of `ReadNextChunk`.
unfoldable pub chunk_round : MemReadWriter → Bytes → ℕ → Outcome (MemReadWriter × Bytes × ℕ)
unfolding read_partial read_full
chunk_round r b written =
    if ltb (length b) (written + r.element_length)
    then read_partial r b written
    else read_full r b written

-- The loop, with as much fuel as there are elements left: each round reads one.
unfoldable pub chunk_loop : ℕ → MemReadWriter → Bytes → ℕ → Outcome (MemReadWriter × Bytes × ℕ)
chunk_loop zero r b written = ok (r, b, written)
chunk_loop (suc fuel) r b written = elim (ltb written (length b) && ltb r.position r.num_elements) [
  | true ↦ do (r', b', written') ← chunk_round r b written; chunk_loop fuel r' b' written'
  | false ↦ ok (r, b, written)
]

-- `ReadNextChunk` into `b`: first the rest that the call before left, then whole elements. It
-- returns how many bytes of `b` it wrote.
unfoldable pub read_next_chunk : MemReadWriter → Bytes → Outcome (MemReadWriter × Bytes × ℕ)
read_next_chunk r b =
    let rest = drop r.offset r.element in
    let n = if ltb 0 (r.element_length - r.offset) then min (length b) (length rest) else 0 in
    chunk_loop (r.num_elements - r.position) (record r { offset = r.offset + n })
      (take n rest ++ drop n b) n

-- `Len`.
unfoldable pub len : MemReadWriter → ℕ
len r = r.num_elements * r.element_length
