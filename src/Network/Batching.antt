-- ===== src/Network/Batching.antt =====
-- network/batching.go: reading the messages of a link in batches, and writing to a connection. What a
-- connection still has to deliver is a list of bytes, whose end is an error.
pub mod Reading
pub mod Sending
pub mod Examples
use bmrng.Prelude.{
  ℕ, zero, suc, ◌+◌, ◌-◌, ◌*◌, ◌/◌, Bool, true, false, ◌||◌, leb, ltb, ◌==◌, if◌then◌else◌, Option,
  none, some, List, [], ◌∷◌, ◌++◌, length, take, drop,
}
use bmrng.Prelude.Outcome.{Outcome, Error, ok, err, panic, external, ◌>>=◌}
use bmrng.Prelude.Bytes.{Bytes, make, slice}
use bmrng.Crypto.Keys.{signature_size}

-- `buff` is what has been put into the channel; `failed` is `Err`.
pub record ConnectionReader : Type 0 where
  pub num_messages : ℕ
  pub message_size : ℕ
  pub base_batch_size : ℕ
  pub conn : Bytes
  pub signature : Bytes
  pub buff : List Bytes
  pub failed : Option Error

-- `NewConnectionReader`.
unfoldable pub new : ℕ → ℕ → ℕ → Bytes → ConnectionReader
new num_messages message_size base_batch_size conn = record {
  num_messages = num_messages;
  message_size = message_size;
  base_batch_size = if base_batch_size == 0 then 1 else base_batch_size;
  conn = conn;
  signature = make signature_size;
  buff = [];
  failed = none;
}

-- `CalculateBatchSize`.
unfoldable pub calculate_batch_size : ℕ → ℕ → ℕ
calculate_batch_size read_size message_size =
    if leb read_size message_size || message_size == 0 then 1 else read_size / message_size

-- The inner loop: the messages of a batch, from `pos` on. The length of the batch bounds the rounds.
unfoldable pub split_loop : ℕ → ℕ → Bytes → ℕ → Outcome (List Bytes)
split_loop zero size b pos = ok []
split_loop (suc fuel) size b pos = elim (ltb pos (length b)) [
  | true ↦ do
    m ← slice b pos (pos + size)
    rest ← split_loop fuel size b (pos + size)
    ok (m ∷ rest)
  | false ↦ ok []
]

-- How many messages the batch at `i` has.
unfoldable pub batch_at : ConnectionReader → ℕ → ℕ
batch_at c i =
    if ltb (c.num_messages - i) c.base_batch_size then c.num_messages - i else c.base_batch_size

-- The last read: the signature, of which as much is filled in as there is.
unfoldable pub read_signature : ConnectionReader → ConnectionReader
read_signature c = record c {
  signature = take (length c.signature) c.conn ++ drop (length c.conn) c.signature;
  conn = drop (length c.signature) c.conn;
}

-- A batch from the connection: the reader behind it, or none if the connection ends.
unfoldable pub read_batch : ConnectionReader → ℕ → Option (Bytes × ConnectionReader)
read_batch c n =
    if leb (c.message_size * n) (length c.conn)
    then some
        (take (c.message_size * n) c.conn, record c { conn = drop (c.message_size * n) c.conn })
    else none

-- The loop of `ContinuousReader`, from the message `i` on; a batch has one message at least, so the
-- number of messages bounds the rounds.
unfoldable pub reader_loop : ℕ → ConnectionReader → ℕ → Outcome ConnectionReader
unfolding batch_at split_loop read_batch read_signature
reader_loop zero c i = ok (read_signature c)
reader_loop (suc fuel) c i = elim (ltb i c.num_messages) [
  | true ↦ elim (read_batch c (batch_at c i)) [
    | none ↦ ok (record c { failed = some external; conn = [] })
    | some (b, c') ↦ do
      ms ← split_loop (length b) c.message_size b 0
      reader_loop fuel (record c' { buff = c'.buff ++ ms }) (i + c.base_batch_size)
  ]
  | false ↦ ok (read_signature c)
]

-- `ContinuousReader`.
unfoldable pub continuous_reader : ConnectionReader → Outcome ConnectionReader
unfolding reader_loop
continuous_reader c = reader_loop c.num_messages c 0

-- The loop of `send`, from `written` on: `accept` is how many of the bytes a `Write` takes, or its
-- error with what it took. What went out is returned.
unfoldable pub send_loop :
    ℕ → (Bytes → ℕ × Option Error) → Bytes → ℕ → Bytes → Bytes × Outcome (Unit {0})
send_loop zero accept b written out = (out, ok tt)
send_loop (suc fuel) accept b written out = elim (ltb written (length b)) [
  | true ↦
      (let (n, failed) = accept (drop written b) in
        let out' = out ++ take n (drop written b) in
        elim failed [ some e ↦ (out', err e) | none ↦ send_loop fuel accept b (written + n) out' ])
  | false ↦ (out, ok tt)
]

-- `send`; a `Write` without an error takes a byte at least, so the length is enough fuel.
unfoldable pub send : (Bytes → ℕ × Option Error) → Bytes → Bytes × Outcome (Unit {0})
unfolding send_loop
send accept b = send_loop (length b) accept b 0 []
