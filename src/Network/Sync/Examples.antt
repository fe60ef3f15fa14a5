-- ===== src/Network/Sync/Examples.antt =====
-- Two senders at layer 0, and runs of them.
use bmrng.Prelude.{
  ℕ, ◌<◌, ◌≡◌, refl, Bool, true, false, none, some, List, [], ◌∷◌, get_elem?, arith,
}
use bmrng.Prelude.Int.{pos}
use bmrng.Prelude.Outcome.{ok, panic}
use bmrng.Network.Sync.{Synchronizer, new, mark, mark_index, passes, done, trigger}
use bmrng.Network.Sync.System.{System, pass, enter, leave, Reach, here, next, start}
use bmrng.Network.Sync.Marking.{mark-panic}
use bmrng.Network.Sync.Barrier.{fire_complete, idle_admits}

abbrev fresh : System
fresh = start (pos 0) (pos 0) 2 none

abbrev marks : List Bool → ℕ → Synchronizer
marks started processed = record {
  round = pos 0;
  layer = pos 0;
  processed = processed;
  threshold = 2;
  started = started;
  callback = none;
}

-- The system with the given synchroniser and callers.
abbrev running : Synchronizer → ℕ → ℕ → ℕ → System
running sync passed inside triggers = record {
  sync = sync;
  passed = passed;
  inside = inside;
  refused = 0;
  triggers = triggers;
  disturbed = 0;
}

abbrev all_done : System
all_done = running (marks (true ∷ true ∷ []) 2) 0 0 1

Reach-all : Reach fresh all_done
unfolding done new mark mark_index passes
Reach-all =
    next
      (next
        (next
          (next
            (next (next here (pass fresh (pos 0) refl))
              (pass (running (marks (false ∷ false ∷ []) 0) 1 0 0) (pos 0) refl))
            (enter (running (marks (false ∷ false ∷ []) 0) 2 0 0) 1 (pos 1)
              (marks (false ∷ true ∷ []) 0) refl refl))
          (enter (running (marks (false ∷ true ∷ []) 0) 1 1 0) 0 (pos 0)
            (marks (true ∷ true ∷ []) 0) refl refl))
        (leave (running (marks (true ∷ true ∷ []) 0) 0 2 0) 1 (marks (true ∷ true ∷ []) 1) false
          refl refl))
      (leave (running (marks (true ∷ true ∷ []) 1) 0 1 0) 0 (marks (true ∷ true ∷ []) 2) true refl
        refl)

after_trigger : (trigger (marks (true ∷ true ∷ []) 2)).layer ≡ pos 1
unfolding trigger
after_trigger = refl

fire_complete_example :
    (all_done.inside ≡ 0)
    × (all_done.sync.processed ≡ 2)
    × ((i : ℕ) → i < 2 → get_elem? all_done.sync.started i ≡ some true)
fire_complete_example = fire_complete (pos 0) (pos 0) 2 none 0 Reach-all refl refl

idle_admits_example : (i : ℕ) × (t : Synchronizer) × (mark fresh.sync (pos i) ≡ ok t)
unfolding new
idle_admits_example = idle_admits (pos 0) (pos 0) 2 none here refl refl (omega arith)

mark-panic_example : mark (marks (false ∷ true ∷ []) 0) (pos 2) ≡ panic
mark-panic_example = (mark-panic (marks (false ∷ true ∷ []) 0) (pos 2)).1 refl
