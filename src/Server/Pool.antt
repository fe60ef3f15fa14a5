-- ===== src/Server/Pool.antt =====
-- server/pool.go: a message from another server. What is put into the job queue is a list; the jobs are
-- handled by Server/Rounds, Server/Setup and Server/Checkpoint.
pub mod Streaming
pub mod Link
pub mod Examples
use bmrng.Prelude.{
  ℕ, zero, suc, ◌+◌, ◌*◌, Bool, true, false, not, ◌==◌, if◌then◌else◌, Option, none, some, List, [],
  ◌∷◌,
}
use bmrng.Prelude.Int.{ℤ, pos, beq}
use bmrng.Prelude.Outcome.{
  Outcome, Error, ok, err, panic, signature, unrecognized, check, ◌>>=◌, ◌>>◌,
}
use bmrng.Prelude.Bytes.{Bytes, slice}
use bmrng.Crypto.Keys.{key_size}
use bmrng.Network.Metadata.{Metadata}
use bmrng.Network.Sync.{Synchronizer, sync_once, done}
use bmrng.Server.Checkpoint.{response_length}
use bmrng.Server.Setup.{check_message}

-- What the reader of the stream delivered: the messages, its error, and whether the signature on the
-- metadata and the messages verifies.
pub record Delivered : Type 0 where
  pub messages : List Bytes
  pub failed : Option Error
  pub signature_valid : Bool

-- The loop that looks for a byte of the key that is not zero.
unfoldable pub all_zero : ℕ → Bytes → Outcome Bool
all_zero zero message = ok true
all_zero (suc n) [] = panic
all_zero (suc n) (b ∷ message) = let rest = all_zero n message in if b == 0 then rest else ok false

-- The jobs of a stream: the messages that are no dummies, in order.
unfoldable pub jobs_of : List Bytes → Outcome (List Bytes)
unfolding all_zero
jobs_of [] = ok []
jobs_of (message ∷ rest) = do
  dummy ← all_zero key_size message
  jobs ← jobs_of rest
  ok (if dummy then jobs else message ∷ jobs)

-- What is returned once the messages are queued.
unfoldable pub stream_result : Delivered → Outcome (Unit {0})
stream_result d = elim d.failed [
  | some e ↦ err e
  | none ↦ if d.signature_valid then ok tt else err signature
]

-- What the call leaves: the synchroniser and whether a `Trigger` is started, the jobs, the result.
pub record Streamed : Type 0 where
  pub after_done : Outcome (Synchronizer × Bool)
  pub jobs : List Bytes
  pub result : Outcome (Unit {0})

-- Behind `checkMessage`: `Done` is deferred, so it runs on every path, and also if the message was
-- refused.
unfoldable pub process_checked : Synchronizer → Delivered → Outcome Synchronizer → Outcome Streamed
unfolding jobs_of stream_result
process_checked sync d panic = panic
process_checked sync d (err why) =
    ok (record { after_done = done sync; jobs = []; result = err why })
process_checked sync d (ok sync') = do
  jobs ← jobs_of d.messages
  ok (record { after_done = done sync'; jobs = jobs; result = stream_result d })

-- `WorkerPoolProcessStream`: none while it waits for its layer.
unfoldable pub worker_pool_process_stream :
    Synchronizer → Synchronizer → Metadata → Delivered → Option (Outcome Streamed)
unfolding process_checked
worker_pool_process_stream waited sync m d = elim (check_message waited sync m) [
  | none ↦ none
  | some r ↦ some (process_checked sync d r)
]

-- The windows of the response that the jobs of a group fill, from `start` on.
unfoldable pub response_windows : List Bytes → Bytes → ℕ → Outcome (List (Bytes × Bytes))
response_windows [] response start = ok []
response_windows (message ∷ rest) response start = do
  window ← slice response start (start + response_length)
  jobs ← response_windows rest response (start + response_length)
  ok ((message, window) ∷ jobs)

-- The handler of a job.
pub data Work : Type 0 where
  lightning_message boomerang_message path_message checkpoint_message trustee_message : Work

-- The switch of `ProcessThread`.
unfoldable pub work_of : ℤ → Outcome Work
work_of kind =
    if beq kind (pos 4)
    then ok lightning_message
    else if beq kind (pos 6)
    then ok boomerang_message
    else if beq kind (pos 7)
    then ok path_message
    else if beq kind (pos 8)
    then ok checkpoint_message
    else if beq kind (pos 9)
    then ok trustee_message
    else err unrecognized
