-- ===== src/Server/Setup/Examples.antt =====
-- A lightning round of one layer, with one server and no client.
use bmrng.Prelude.{◌≡◌, ◌↔◌, refl, ℕ, Bool, true, false, none, [], ap, sym, arith}
use bmrng.Prelude.Int.{ℤ, pos, negsuc, succ}
use bmrng.Prelude.Outcome.{IsOk, ok, err, panic}
use bmrng.Network.Sync.{Callback, new as new_synchronizer}
use bmrng.Server.KeyTable.{new as new_table, num_keys, reset_usage, clear_used}
use bmrng.Server.Lengths.{lightning_message_lengths, onion_lengths, onion_loop, raise_loop, raise}
use bmrng.Server.Onion.{all_keys_accounted_for}
use bmrng.Server.Onion.Examples.{flip, right_sum, by_sum}
use bmrng.Server.Routers.{make_buffers, new_lightning_router, new_trustee_router}
use bmrng.Server.Rounds.{
  Server, at_layer, set_layer, router_for, parser_at, put_parser, put_router, router_at, open_layer,
  account, check_complete, set_up_next, task_of, on_threshold, completes, finish, lightning_start,
  setup_new_lightning_round,
}
use bmrng.Server.Rounds.Progress.{IsAccounted}
use bmrng.Server.Rounds.{Server, Task}
use bmrng.Server.Rounds.Layers.{Reach, here, step, threshold}
use bmrng.Server.Setup.{RoundInfo, Node, prepare_server, setup_lightning, round_setup}
use bmrng.Server.Setup.Starting.{round_setup-on_threshold}

abbrev next_one : Callback
next_one layer = (1, succ layer)

abbrev fresh : Node ℕ Bool
fresh = record {
  s = record {
    c = record { round = negsuc 1; layer = pos 0; num_layers = pos 0; my_id = pos 0 };
    links = record {
      num_servers = 1;
      num_groups = 1;
      bin_size = 0;
      group_bin_size = 0;
      onion_message_lengths = [];
      path_message_lengths = [];
      boomerang_message_lengths = [];
    };
    keys = [];
    onion_parsers = [];
    lightning_routers = [];
    final_router = [];
    last_layer = pos 0;
    receipt_layer = pos 0;
    path_layer = pos 0;
    direction = pos 0;
    path_round = false;
    is_round_complete = false;
    receipts = [];
  };
  synchronizer = new_synchronizer (negsuc 1) (pos 0) 1 none;
  path_routers = [];
  handler_round = negsuc 1;
}

abbrev two_layers : RoundInfo
two_layers = record {
  round = pos 0;
  num_layers = 2;
  bin_size = 1;
  message_size = 1;
  boomerang_limit = 1;
  path_establishment = false;
  next_layer = pos 0;
  receipt_layer = pos 0;
}

-- The first threshold of two, over empty tables.
first_of_two :
    (y : Node ℕ Bool) × (round_setup 1 next_one fresh two_layers ≡ ok y)
    × ((t : Server ℕ) × Reach flip right_sum by_sum y.s t 1 × IsAccounted t (pos 1))
unfolding round_setup setup_lightning prepare_server setup_new_lightning_round lightning_start
    open_layer put_router router_for at_layer set_layer lightning_message_lengths onion_lengths
    onion_loop raise_loop raise make_buffers new_lightning_router new_trustee_router on_threshold
    check_complete account parser_at put_parser all_keys_accounted_for num_keys reset_usage
    clear_used set_up_next task_of router_at completes finish new_table
first_of_two = (
  _,
  refl,
  (
    _,
    step here (threshold _ (pos 0) _ _ _ refl refl refl),
    λ o found.
        ap (λ r. elim r [ ok p ↦ (all_keys_accounted_for p).1 | err why ↦ true | panic ↦ true ])
          (sym found),
  ),
)

round_setup-on_threshold_example :
    (u : Server ℕ) × (next : ℕ × ℤ) × (task : Task) × (t : Server ℕ) × (first_of_two.2.0.c.layer
      ≡ pos 1)
    × IsOk (parser_at first_of_two.2.0 (pos 1))
    × IsOk (router_at first_of_two.2.0 (pos 1))
    × (on_threshold first_of_two.2.0 (pos 1) ≡ ok (u, next, task))
    × (finish u (pos 1) task ≡ ok t)
    × (t.c.layer ≡ pos 2)
    × ((t.is_round_complete ≡ true) ↔ (◌≡◌ {A = ℕ} 1 1))
round_setup-on_threshold_example =
    round_setup-on_threshold 1 flip right_sum by_sum next_one fresh first_of_two.0 first_of_two.2.0
      two_layers 1 1 refl refl (λ later. absurd (ground (arith, later))) first_of_two.1
      first_of_two.2.1 (omega arith) first_of_two.2.2
