-- ===== src/Server/Rounds.antt =====
-- server/server.go: the layers of a round. A parser points to the key table of its layer and to the
-- common state, so it is put together from them when it is called, and its table is written back.
pub mod Keeping
pub mod Thresholds
pub mod Opened
pub mod Progress
pub mod Layers
use bmrng.Prelude.{
  ℕ, zero, suc, ◌+◌, ◌-◌, Bool, true, false, not, ◌&&◌, ltb, if◌then◌else◌, Option, none, some,
  List, [], ◌∷◌, length, get_elem?, set, replicate,
}
use bmrng.Prelude.Int.{ℤ, pos, negsuc, add, beq, ltz, int_eq}
use bmrng.Prelude.Assoc.{insert, lookup}
use bmrng.Prelude.Outcome.{
  Outcome, ok, err, panic, attempt, check, require, client_not_found, ◌>>=◌, ◌>>◌,
}
use bmrng.Prelude.Bytes.{Bytes}
use bmrng.Server.KeyTable.{BootstrapKey, KeyLookupTable, new as new_table}
use bmrng.Server.Lengths.{lightning_message_lengths}
use bmrng.Server.Onion.{
  Position, OnionParser, LightningRouter, new as new_parser, all_keys_accounted_for,
  authenticated_onion_parse, authenticated_onion_pack,
}
use bmrng.Server.Routers.{Links, new_lightning_router, new_trustee_router, trustee_pack}

-- What a parser has of its own.
pub record Parsing : Type 0 where
  pub count : ℕ
  pub reverse : Bool

pub record Server (Expanded : Type 0) : Type 0 where
  pub c : Position
  pub links : Links
  pub keys : List (KeyLookupTable Expanded)
  pub onion_parsers : List (Option Parsing)
  pub lightning_routers : List (Option LightningRouter)
  pub final_router : LightningRouter
  pub last_layer : ℤ
  pub receipt_layer : ℤ
  pub path_layer : ℤ
  pub direction : ℤ
  pub path_round : Bool
  pub is_round_complete : Bool
  pub receipts : List (ℤ × Bytes)

-- What the goroutine of `OnThreshold` does with the buffers of the layer.
pub data Task : Type 0 where
  release : Task
  send_on : Bool → ℤ → LightningRouter → Task
  send_trustees : LightningRouter → Task
  ask_groups : Task

unfoldable pub completes : Task → Bool
completes release = true
completes (send_on reverse next l) = false
completes (send_trustees l) = true
completes ask_groups = false

-- `xs[layer]`, and a write to it, with the run-time check.
unfoldable pub at_layer : {A : Type 0} → List A → ℤ → Outcome A
at_layer xs (negsuc i) = panic
at_layer xs (pos i) = elim (get_elem? xs i) [ none ↦ panic | some x ↦ ok x ]

unfoldable pub set_layer : {A : Type 0} → List A → ℤ → A → Outcome (List A)
set_layer xs (negsuc i) x = panic
set_layer xs (pos i) x = if ltb i (length xs) then ok (set xs i x) else panic

-- A pointer that is not nil.
abbrev pub present : {A : Type 0} → Option A → Outcome A
present none = panic
present (some a) = ok a

-- `NewLightningRouter`, of a layer that may be negative.
unfoldable pub router_for : Links → ℤ → Bool → Outcome LightningRouter
router_for links (pos i) reverse = new_lightning_router links i reverse
router_for links (negsuc i) reverse = panic

module _ {Expanded : Type 0} where
  unfoldable pub parser_at : Server Expanded → ℤ → Outcome (OnionParser Expanded)
  unfolding at_layer
  parser_at s layer = do
    entry ← at_layer s.onion_parsers layer
    p ← present entry
    table ← at_layer s.keys layer
    ok (record { c = s.c; count = p.count; key_table = table; reverse = p.reverse })

  -- The parser's count, and the table that it points to.
  unfoldable pub put_parser : Server Expanded → ℤ → OnionParser Expanded → Outcome (Server Expanded)
  unfolding set_layer
  put_parser s layer o = do
    parsers ←
        set_layer s.onion_parsers layer (some (record { count = o.count; reverse = o.reverse }))
    keys ← set_layer s.keys layer o.key_table
    ok (record s { onion_parsers = parsers; keys = keys })

  unfoldable pub router_at : Server Expanded → ℤ → Outcome LightningRouter
  unfolding at_layer
  router_at s layer = do entry ← at_layer s.lightning_routers layer; present entry

  unfoldable pub put_router : Server Expanded → ℤ → LightningRouter → Outcome (Server Expanded)
  unfolding set_layer
  put_router s layer l = do
    routers ← set_layer s.lightning_routers layer (some l)
    ok (record s { lightning_routers = routers })

  -- `lightingRouters[layer].AuthenticatedOnionPack(...)`.
  unfoldable pub pack_at :
      Server Expanded
      → ℤ
      → Bytes
      → BootstrapKey Expanded
      → Bool
      → Server Expanded × Outcome (Unit {0})
  unfolding router_at put_router
  pack_at s layer decrypted k reverse =
      attempt s
        (router_at s layer >>= λ l.
          authenticated_onion_pack l decrypted k reverse >>= put_router s layer)
        λ s'. (s', ok tt)

  -- `recordReceipts`.
  unfoldable pub record_receipts : Server Expanded → Bytes → BootstrapKey Expanded → Server Expanded
  record_receipts s decrypted k = record s { receipts = insert k.prev_server decrypted s.receipts }

  -- What is done with a lightning message that was decrypted.
  unfoldable pub pass_on :
      Server Expanded → ℤ → Bytes → BootstrapKey Expanded → Server Expanded × Outcome (Unit {0})
  unfolding pack_at
  pass_on s layer decrypted k =
      if not (beq layer s.last_layer)
      then pack_at s layer decrypted k false
      else attempt s (trustee_pack s.final_router decrypted k)
          λ t. (record s { final_router = t }, ok tt)

  -- What is done with a receipt that was decrypted.
  unfoldable pub pass_back :
      Server Expanded → ℤ → Bytes → BootstrapKey Expanded → Server Expanded × Outcome (Unit {0})
  unfolding pack_at record_receipts
  pass_back s layer decrypted k =
      if ltz s.receipt_layer layer
      then pack_at s layer decrypted k true
      else if beq layer (pos 0)
      then (record_receipts s decrypted k, ok tt)
      else if beq layer s.receipt_layer
      then (record s { receipts = insert (pos (length s.receipts)) decrypted s.receipts }, ok tt)
      else (s, ok tt)

  module _ (xor_key_stream : Bytes → Bytes → Bytes → Bytes) (verify : Bytes → Bytes → Bytes → Bool)
      (verify_expanded : Expanded → Bytes → Bytes → Bool) where
    -- The parser of the layer on a message, and then what is done with what was inside.
    unfoldable pub parse_then :
        Server Expanded
        → Bytes
        → (Server Expanded
            → ℤ
            → Bytes
            → BootstrapKey Expanded
            → Server Expanded × Outcome (Unit {0}))
        → Server Expanded × Outcome (Unit {0})
    unfolding parser_at put_parser
    parse_then s message next = attempt s (parser_at s s.c.layer) λ o.
        (let (o', r) = authenticated_onion_parse xor_key_stream verify verify_expanded o message in
          attempt s (put_parser s s.c.layer o') λ s'. attempt s' r λ (decrypted, i).
            attempt s' (present (get_elem? o'.key_table.heap i)) λ k. next s' s.c.layer decrypted k)

    -- `handleLightningMessage`.
    unfoldable pub handle_lightning_message :
        Server Expanded → Bytes → Server Expanded × Outcome (Unit {0})
    unfolding parse_then pass_on
    handle_lightning_message s message = parse_then s message pass_on

    -- `HandleBoomerangMessage`.
    unfoldable pub handle_boomerang_message :
        Server Expanded → Bytes → Server Expanded × Outcome (Unit {0})
    unfolding parse_then pass_back
    handle_boomerang_message s message = parse_then s message pass_back

  -- `AllKeysAccountedFor`, or the panic.
  unfoldable pub account : Server Expanded → ℤ → OnionParser Expanded → Outcome (Server Expanded)
  unfolding put_parser
  account s layer o = let (o', all) = all_keys_accounted_for o in check all >> put_parser s layer o'

  -- Path establishment has no parser at its own layer.
  unfoldable pub check_complete : Server Expanded → ℤ → Outcome (Server Expanded)
  unfolding parser_at account
  check_complete s layer =
      if not (beq layer s.path_layer) then (parser_at s layer >>= account s layer) else ok s

  -- A parser and a router for a layer, which the messages that are sent now are read with.
  unfoldable pub open_layer : Server Expanded → ℤ → Bool → Outcome (Server Expanded)
  unfolding put_router at_layer set_layer router_for
  open_layer s layer reverse = do
    table ← at_layer s.keys layer
    parsers ← set_layer s.onion_parsers layer (some (record { count = 0; reverse = reverse }))
    l ← router_for s.links layer reverse
    put_router (record s { onion_parsers = parsers }) layer l

  unfoldable pub set_up_next : Server Expanded → ℤ → ℤ → Outcome (Server Expanded)
  unfolding open_layer
  set_up_next s layer next =
      if not s.path_round && not (beq layer s.last_layer)
      then open_layer s next false
      else if s.path_round && not (beq layer s.receipt_layer)
      then open_layer s next true
      else ok s

  unfoldable pub task_of : Server Expanded → ℤ → ℤ → LightningRouter → Task
  task_of s layer next l =
      if beq layer s.receipt_layer
      then release
      else if not (beq layer s.last_layer)
      then send_on s.path_round next l
      else if not s.path_round
      then send_trustees s.final_router
      else ask_groups

  -- `OnThreshold`: the next threshold and layer, and what is left to the goroutine.
  unfoldable pub on_threshold : Server Expanded → ℤ → Outcome (Server Expanded × (ℕ × ℤ) × Task)
  unfolding check_complete set_up_next task_of router_at
  on_threshold s layer = do
    s₁ ← check_complete s layer
    let next = add layer s₁.direction
    s₂ ← set_up_next (record s₁ { c = record s₁.c { layer = next } }) layer next
    l ← router_at s₂ layer
    ok (s₂, (s₂.links.num_servers, next), task_of s₂ layer next l)

  -- The receipts that came back from the groups, packed for the layer before; an error panics.
  unfoldable pub pack_receipts :
      Server Expanded → ℤ → List (Bytes × BootstrapKey Expanded) → Outcome (Server Expanded)
  unfolding pack_at
  pack_receipts s layer [] = ok s
  pack_receipts s layer ((decrypted, k) ∷ rest) =
      (let (s', r) = pack_at s layer decrypted k true in
        elim r [ ok _ ↦ pack_receipts s' layer rest | _ ↦ panic ])

  -- The end of the goroutine: the round is complete, or goes on, and the layer is freed.
  unfoldable pub finish : Server Expanded → ℤ → Task → Outcome (Server Expanded)
  unfolding completes set_layer
  finish s layer task = do
    parsers ← set_layer s.onion_parsers layer none
    routers ← set_layer s.lightning_routers layer none
    ok (record s {
      onion_parsers = parsers;
      lightning_routers = routers;
      is_round_complete = if completes task then true else s.is_round_complete;
    })

  -- The first part of `SetupNewLightningRound`, with the lengths.
  unfoldable pub lightning_start : Server Expanded → ℕ → List ℕ → Server Expanded
  lightning_start s num_layers lengths = record s {
    last_layer = add (pos num_layers) (negsuc 0);
    receipt_layer = negsuc 0;
    path_layer = negsuc 0;
    path_round = false;
    direction = pos 1;
    links = record s.links { onion_message_lengths = lengths };
    onion_parsers = replicate num_layers none;
    lightning_routers = replicate num_layers none;
  }

  -- `SetupNewLightningRound`, of the server; the groups are in Server/Members.
  unfoldable pub setup_new_lightning_round : Server Expanded → ℕ → ℕ → Outcome (Server Expanded)
  unfolding open_layer lightning_start
  setup_new_lightning_round s num_layers payload_size = do
    lengths ← lightning_message_lengths num_layers payload_size
    s₁ ← open_layer (lightning_start s num_layers lengths) (pos 0) false
    t ← new_trustee_router s₁.links num_layers
    ok (record s₁ { final_router = t })
