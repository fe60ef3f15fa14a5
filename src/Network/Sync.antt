-- ===== src/Network/Sync.antt =====
-- network/synchronization/synchronization.go: the state of a `Synchronizer` and its methods. What a
-- method does under its locks is one step; `SyncOnce` is two, the wait and the mark.
pub mod System
pub mod Barrier
pub mod Marking
pub mod Examples
use bmrng.Prelude.{
  ℕ, suc, ◌+◌, Bool, true, false, ◌||◌, ltb, ◌==◌, if◌then◌else◌, Option, none, some, List, length,
  get_elem?, set, replicate,
}
use bmrng.Prelude.Int.{ℤ, pos, negsuc, succ, beq}
use bmrng.Prelude.Outcome.{Outcome, ok, err, panic, bad_metadata, synchronization}

-- `OnThreshold`: from the completed layer to the next threshold and layer.
abbrev pub Callback : Type 0
Callback = ℤ → ℕ × ℤ

pub record Synchronizer : Type 0 where
  pub round : ℤ
  pub layer : ℤ
  pub processed : ℕ
  pub threshold : ℕ
  pub started : List Bool
  pub callback : Option Callback

abbrev pub pre_round : ℤ
pre_round = negsuc 0

abbrev pub blocked : ℤ
blocked = negsuc 1

abbrev pub in_progress : ℤ
in_progress = pos 0

abbrev pub completed : ℤ
completed = pos 1

-- `NewSynchronizer`.
unfoldable pub new : ℤ → ℤ → ℕ → Option Callback → Synchronizer
new round layer threshold callback = record {
  round = round;
  layer = layer;
  processed = 0;
  threshold = threshold;
  started = replicate threshold false;
  callback = callback;
}

-- The loop test of `Sync`: whether a caller for `layer` goes through.
unfoldable pub passes : Synchronizer → ℤ → Bool
passes s layer = beq s.layer layer

-- `s.started[id]`, whose index is checked at run time, and the marking of it.
unfoldable pub mark_index : Synchronizer → ℕ → Outcome Synchronizer
mark_index s i = elim (get_elem? s.started i) [
  | none ↦ panic
  | some true ↦ err synchronization
  | some false ↦ ok (record s { started = set s.started i true })
]

-- `SyncOnce` behind its call of `Sync`.
unfoldable pub mark : Synchronizer → ℤ → Outcome Synchronizer
unfolding mark_index
mark s (negsuc i) = err bad_metadata
mark s (pos i) = if ltb (length s.started) i then err bad_metadata else mark_index s i

-- `SyncOnce`: `none` while the caller waits for its layer. The lock of the wait is released before that
-- of the mark is taken, so the state `waited` that ends the wait and the state `s` that is marked can
-- differ.
unfoldable pub sync_once : Synchronizer → Synchronizer → ℤ → ℤ → Option (Outcome Synchronizer)
unfolding passes mark
sync_once waited s layer id = if passes waited layer then some (mark s id) else none

-- `Done`: the new state, and whether a `Trigger` is started beside it.
unfoldable pub done : Synchronizer → Outcome (Synchronizer × Bool)
done s =
    let t = record s { processed = s.processed + 1 } in
    if t.processed == t.threshold
    then ok (t, true)
    else if ltb t.threshold t.processed
    then panic
    else ok (t, false)

-- What `Trigger` asks: the callback, or the next layer under the same threshold.
unfoldable pub next_stage : Synchronizer → ℕ × ℤ
next_stage s = elim s.callback [ some f ↦ f s.layer | none ↦ (s.threshold, succ s.layer) ]

unfoldable pub trigger : Synchronizer → Synchronizer
unfolding next_stage
trigger s =
    let (threshold, layer) = next_stage s in
    record s {
      threshold = threshold;
      layer = layer;
      started = replicate threshold false;
      processed = 0;
    }

unfoldable pub reset : Synchronizer → ℤ → ℤ → ℕ → Synchronizer
reset s round layer threshold = record s {
  round = round;
  layer = layer;
  processed = 0;
  threshold = threshold;
  started = replicate threshold false;
}
