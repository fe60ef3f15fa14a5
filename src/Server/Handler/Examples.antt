-- ===== src/Server/Handler/Examples.antt =====
-- A message of round 3 at a handler that is blocked and then set to round 3.
use bmrng.Prelude.{◌≡◌, ◌↔◌, ◌⊎◌, true, false, some, [], ◌∷◌}
use bmrng.Prelude.Int.{pos}
use bmrng.Prelude.Outcome.{ok}
use bmrng.Network.Sync.{blocked}
use bmrng.Server.Handler.{must_wait, wait_for_round}
use bmrng.Server.Handler.Waiting.{Comes, wait_for_round_iff}

wait_for_round_iff_example :
    (wait_for_round (pos 3) blocked (blocked ∷ pos 3 ∷ []) ≡ some (ok tt)) ↔ (
      (must_wait (pos 3) blocked ≡ false)
      ⊎ ((must_wait (pos 3) blocked ≡ true) × Comes (pos 3) (blocked ∷ pos 3 ∷ [])))
wait_for_round_iff_example = wait_for_round_iff (pos 3) blocked (blocked ∷ pos 3 ∷ [])
