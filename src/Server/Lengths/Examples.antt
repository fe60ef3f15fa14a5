-- ===== src/Server/Lengths/Examples.antt =====
-- Three layers and a payload of ten bytes.
use bmrng.Prelude.{◌≡◌, refl, [], ◌∷◌}
use bmrng.Prelude.Outcome.{ok}
use bmrng.Server.Lengths.{
  raise, onion_loop, onion_lengths, raise_loop, lightning_message_lengths, follow, growing_loop,
  level_loop, boomerang_lengths, lower, wire_boomerang_lengths,
}

three_layers : lightning_message_lengths 3 10 ≡ ok (298 ∷ 234 ∷ 170 ∷ 106 ∷ [])
unfolding lightning_message_lengths onion_lengths onion_loop raise_loop raise
three_layers = refl

receipts : wire_boomerang_lengths 4 20 2 ≡ ok (20 ∷ 116 ∷ 180 ∷ 180 ∷ [])
unfolding wire_boomerang_lengths boomerang_lengths growing_loop level_loop follow raise_loop raise
    lower
receipts = refl
