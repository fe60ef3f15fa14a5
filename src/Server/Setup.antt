-- ===== src/Server/Setup.antt =====
-- server/server.go: how a round is set up and started, and the messages of path establishment.
pub mod Starting
pub mod Examples
use bmrng.Prelude.{
  ℕ, zero, suc, ◌+◌, ◌-◌, ◌*◌, Bool, true, false, not, ◌&&◌, ltb, if◌then◌else◌, Option, none, some,
  List, [], ◌∷◌, length, get_elem?, set, replicate,
}
use bmrng.Prelude.Int.{ℤ, pos, negsuc, add, beq, ltz, is_negative}
use bmrng.Prelude.Outcome.{Outcome, ok, err, panic, attempt, bad_metadata, ◌>>=◌}
use bmrng.Prelude.Bytes.{Bytes}
use bmrng.Crypto.Dhkx.{Group}
use bmrng.Network.Metadata.{Metadata}
use bmrng.Network.Sync.{Synchronizer, Callback, sync_once, passes, reset, new as new_synchronizer}
use bmrng.Server.Establishment.{
  PathEstablishmentParser, parse_record_and_get_next, new as new_path_parser,
}
use bmrng.Server.KeyTable.{new as new_table}
use bmrng.Server.Lengths.{boomerang_lengths, wire_boomerang_lengths, path_establishment_lengths}
use bmrng.Server.Onion.{LightningRouter}
use bmrng.Server.Routers.{Links, new_lightning_router}
use bmrng.Server.Rounds.{
  Server, at_layer, set_layer, present, pack_at, put_router, record_receipts, router_for,
  handle_lightning_message, setup_new_lightning_round,
}
use bmrng.Server.Sender.{new as new_sender}

-- What the coordinator asks for, of `RoundInfo`.
pub record RoundInfo : Type 0 where
  pub round : ℤ
  pub num_layers : ℕ
  pub bin_size : ℕ
  pub message_size : ℕ
  pub boomerang_limit : ℕ
  pub path_establishment : Bool
  pub next_layer : ℤ
  pub receipt_layer : ℤ

-- The server with its synchroniser, its parsers of path messages, and the round of its handler.
pub record Node (Expanded Point : Type 0) : Type 0 where
  pub s : Server Expanded
  pub synchronizer : Synchronizer
  pub path_routers : List (Option (PathEstablishmentParser Expanded Point))
  pub handler_round : ℤ

-- `checkMessage`: `none` while it waits for the layer; the states at the end of the wait and at the mark
-- are those of `sync_once`.
unfoldable pub check_message :
    Synchronizer → Synchronizer → Metadata → Option (Outcome Synchronizer)
check_message waited sync m =
    if is_negative m.layer then some (err bad_metadata) else sync_once waited sync m.layer m.sender

-- The loop that moves the lengths up by one layer, from the index `i` down.
unfoldable pub shift_loop : ℕ → List ℕ → Outcome (List ℕ)
shift_loop zero ls = ok ls
shift_loop (suc i) ls = elim (get_elem? ls i) [
  | none ↦ panic
  | some n ↦ shift_loop i (set ls (suc i) n)
]

-- The first part of `RoundSetup`: the common state, and at round 0 new tables.
unfoldable pub prepare_server : {Expanded : Type 0} → Server Expanded → RoundInfo → Server Expanded
prepare_server s m =
    let s₁ = record s {
      c = record s.c { round = m.round; num_layers = pos m.num_layers; layer = pos 0 };
      links = record s.links {
        bin_size = m.bin_size;
        group_bin_size = m.bin_size * s.links.num_servers;
      };
      is_round_complete = false;
    } in
    if beq m.round (pos 0)
    then record s₁ {
      keys = replicate m.num_layers new_table;
      onion_parsers = replicate m.num_layers none;
      lightning_routers = replicate m.num_layers none;
    }
    else s₁

module _ {Expanded Point : Type 0} (token_size : ℕ) where
  -- `SetupNewPathEstablishmentRound`.
  unfoldable pub setup_new_path_establishment_round :
      Node Expanded Point → ℕ → ℕ → ℕ → Outcome (Node Expanded Point)
  setup_new_path_establishment_round x num_layers receipt_size limit = do
    path_lengths ← path_establishment_lengths token_size num_layers receipt_size limit
    receipt_lengths ← boomerang_lengths num_layers receipt_size limit
    onion_lengths ← wire_boomerang_lengths num_layers receipt_size limit
    let links = record x.s.links {
      path_message_lengths = path_lengths;
      boomerang_message_lengths = receipt_lengths;
      onion_message_lengths = onion_lengths;
    }
    table ← at_layer x.s.keys (pos 0)
    p ← new_path_parser x.s.c links table 0 none
    routers ← set_layer (replicate num_layers none) (pos 0) (some p)
    ok (record x {
      path_routers = routers;
      s = record x.s {
        path_layer = pos 0;
        receipt_layer = pos 0;
        receipts = [];
        last_layer = add (pos num_layers) (negsuc 0);
        path_round = true;
        direction = negsuc 0;
        links = links;
      };
    })

  -- `SetupNewLightningRound`, of the node.
  unfoldable pub setup_lightning : Node Expanded Point → RoundInfo → Outcome (Node Expanded Point)
  setup_lightning x m =
      setup_new_lightning_round x.s m.num_layers m.message_size >>= λ s. ok (record x { s = s })

  -- `RoundSetup`, behind its connections.
  unfoldable pub round_setup :
      Callback → Node Expanded Point → RoundInfo → Outcome (Node Expanded Point)
  unfolding setup_new_path_establishment_round setup_lightning prepare_server
  round_setup on_threshold x m = do
    let x₁ = record x {
      s = prepare_server x.s m;
      synchronizer = new_synchronizer m.round (pos 0) x.s.links.num_servers (some on_threshold);
    }
    x₂ ←
        if m.path_establishment
        then setup_new_path_establishment_round x₁ m.num_layers m.message_size m.boomerang_limit
        else setup_lightning x₁ m
    ok (record x₂ { handler_round = m.round })

module _ {Expanded Scalar Point : Type 0} (g : Group Scalar Point) (token_size : ℕ) where
  -- A round of path establishment up to its sending: the layer that `RoundInfo` names is set up, and
  -- what is sent are the buffers of the layer before. A sender of receipts is made at the last layer.
  unfoldable pub start_path_round :
      Node Expanded Point → RoundInfo → Outcome (Node Expanded Point × LightningRouter)
  unfolding shift_loop
  start_path_round x m = do
    let layer = m.next_layer
    let c = record x.s.c { round = m.round; layer = layer }
    let links = x.s.links
    let sender = if beq layer x.s.last_layer then some (new_sender g c links token_size) else none
    table ← at_layer x.s.keys layer
    i ← elim layer [ pos i ↦ ok i | negsuc i ↦ panic ]
    p ← new_path_parser c links table i sender
    routers ← set_layer x.path_routers layer (some p)
    lengths ←
        if ltb m.boomerang_limit i
        then shift_loop (length links.onion_message_lengths - 1) links.onion_message_lengths
        else ok links.onion_message_lengths
    let links' = record links { onion_message_lengths = lengths }
    l ← new_lightning_router links' i true
    s' ←
        put_router
          (record x.s {
            c = c;
            links = links';
            path_layer = layer;
            is_round_complete = false;
            receipt_layer = m.receipt_layer;
            receipts = [];
          })
          layer l
    start ← at_layer routers (add layer (negsuc 0))
    sent ← present start
    routers' ← set_layer routers (add layer (negsuc 0)) none
    ok (
      record x {
        s = s';
        path_routers = routers';
        synchronizer = reset x.synchronizer m.round layer links.num_servers;
        handler_round = m.round;
      },
      sent.outgoing_buffers,
    )

  module _ {Token : Type 0} (token_bytes : Token → Bytes) (no_token : Token)
      (interpret_token : Bytes → Outcome Token) (verify_token : Token → Bytes → Bool)
      (token_hash : Token → Bytes) (to_curve_point : Bytes → Option Point) (agree : Point → Bytes)
      (pre_expand_keys : Bool) (expand_key : Bytes → Outcome Expanded)
      (xor_key_stream : Bytes → Bytes → Bytes → Bytes) (verify : Bytes → Bytes → Bytes → Bool)
      (verify_expanded : Expanded → Bytes → Bytes → Bool) where
    -- The parser of path messages at a layer, with the table and the common state it points to.
    unfoldable pub path_parser_at :
        Node Expanded Point → ℤ → Outcome (PathEstablishmentParser Expanded Point)
    path_parser_at x layer = do
      entry ← at_layer x.path_routers layer
      p ← present entry
      table ← at_layer x.s.keys layer
      ok (record p { c = x.s.c; links = x.s.links; table = table })

    unfoldable pub put_path_parser :
        Node Expanded Point
        → ℤ
        → PathEstablishmentParser Expanded Point
        → Outcome (Node Expanded Point)
    put_path_parser x layer p = do
      routers ← set_layer x.path_routers layer (some p)
      keys ← set_layer x.s.keys layer p.table
      ok (record x { path_routers = routers; s = record x.s { keys = keys } })

    -- `handlePathMessage`, of a message from `source`.
    unfoldable pub handle_path_message :
        Node Expanded Point → ℤ → Bytes → Node Expanded Point × Outcome (Unit {0})
    unfolding path_parser_at put_path_parser
    handle_path_message x source message =
        let layer = x.s.c.layer in
        attempt x (path_parser_at x layer) λ p.
          (let (p', r) =
              parse_record_and_get_next g token_size token_bytes no_token interpret_token
                verify_token token_hash to_curve_point agree pre_expand_keys expand_key
                xor_key_stream verify p source message in
            attempt x (put_path_parser x layer p') λ x'. attempt x' r λ (receipt, key).
              attempt x' (present (get_elem? p'.table.heap key)) λ k.
                if beq layer (pos 0)
                then (record x' { s = record_receipts x'.s receipt k }, ok tt)
                else if not (beq layer x'.s.last_layer)
                then (let (s', done) = pack_at x'.s layer receipt k true in
                    (record x' { s = s' }, done))
                else (x', ok tt))

    -- `HandleSubmissionMessage`: `none` while it waits for the layer 0.
    unfoldable pub handle_submission_message :
        Node Expanded Point → ℤ → Bytes → Option (Node Expanded Point × Outcome (Unit {0}))
    unfolding handle_path_message
    handle_submission_message x source message =
        if not (passes x.synchronizer (pos 0))
        then none
        else if x.s.path_round
        then some (handle_path_message x source message)
        else some (
            let (s', r) =
              handle_lightning_message xor_key_stream verify verify_expanded x.s message in
            (record x { s = s' }, r))
