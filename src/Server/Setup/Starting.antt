-- ===== src/Server/Setup/Starting.antt =====
-- A lightning round from its set up on.
use bmrng.Prelude.{
  ℕ, ◌+◌, ◌<◌, ◌≤◌, ◌≡◌, ◌↔◌, refl, sym, ap, subst, ◌∙◌, Bool, true, false, ltb, if◌then◌else◌,
  if-branch, if-elim, inl, inr, Option, none, length, replicate, Bool-cases, length-replicate,
  arith,
}
use bmrng.Prelude.Int.{ℤ, pos, negsuc, add, beq}
use bmrng.Prelude.Outcome.{IsOk, ok, ok-injective, >>=-eq-ok}
use bmrng.Prelude.Bytes.{Bytes}
use bmrng.Network.Sync.{Callback}
use bmrng.Server.Lengths.{lightning_message_lengths}
use bmrng.Server.Routers.{new_trustee_router}
use bmrng.Server.Lengths.Closed.{lightning_message_lengths_lem}
use bmrng.Server.KeyTable.{KeyLookupTable, new as new_table}
use bmrng.Server.Onion.{LightningRouter}
use bmrng.Prelude.Perms.{get_elem?-lt}
use bmrng.Server.Rounds.{
  Server, Task, parser_at, router_at, on_threshold, finish, lightning_start, open_layer,
  setup_new_lightning_round,
}
use bmrng.Server.Rounds.Opened.{IsOpen, IsOpen-found, open_layer-IsOpen}
use bmrng.Server.Rounds.Progress.{IsAccounted, threshold-IsOk}
use bmrng.Server.Rounds.Keeping.{control}
use bmrng.Server.Rounds.Thresholds.{IsLightning, IsLightning-threshold, control-open_layer}
use bmrng.Server.Rounds.Layers.{Reach, Reach-IsLightning, Reach-IsOpen}
use bmrng.Server.Setup.{RoundInfo, Node, prepare_server, setup_lightning, round_setup}

last_of : (m : ℕ) → add (pos (m + 1)) (negsuc 0) ≡ pos m
last_of m = ground arith

setup_new_lightning_round-IsLightning :
    {Expanded : Type 0} (s t : Server Expanded) (m size : ℕ)
    → s.c.layer ≡ pos 0
    → s.is_round_complete ≡ false
    → setup_new_lightning_round s (m + 1) size ≡ ok t
    → IsLightning m 0 (control t)
unfolding setup_new_lightning_round lightning_start
setup_new_lightning_round-IsLightning s t m size layer going h =
    let (lengths, e₁, h₁) = >>=-eq-ok (lightning_message_lengths (m + 1) size) _ h in
    let (s₁, e₂, h₂) =
      >>=-eq-ok (open_layer (lightning_start s (m + 1) lengths) (pos 0) false) _ h₁ in
    let (r, e₃, h₃) = >>=-eq-ok (new_trustee_router s₁.links (m + 1)) _ h₂ in
    subst (IsLightning m 0)
      (sym (control-open_layer (lightning_start s (m + 1) lengths) s₁ (pos 0) false e₂)
        ∙ ap control (ok-injective h₃))
      (layer, last_of m, refl, refl, refl, refl, going ∙ not_yet m, length-replicate (m + 1) none)
  where
    not_yet : (m : ℕ) → false ≡ ltb m 0
    not_yet m = ground arith

prepared :
    {Expanded : Type 0} (s : Server Expanded) (info : RoundInfo)
    → ((prepare_server s info).c.layer ≡ pos 0)
      × ((prepare_server s info).is_round_complete ≡ false)
unfolding prepare_server
prepared {Expanded} s info =
    if-elim {A = Server Expanded} (λ t. (t.c.layer ≡ pos 0) × (t.is_round_complete ≡ false))
      (beq info.round (pos 0)) (refl, refl) (refl, refl)

prepared-keys :
    {Expanded : Type 0} (s : Server Expanded) (info : RoundInfo) (m : ℕ)
    → info.num_layers ≡ m + 1
    → (beq info.round (pos 0) ≡ false → m < length s.keys)
    → m < length (prepare_server s info).keys
unfolding prepare_server
prepared-keys {Expanded} s info m layers tables = elim (Bool-cases (beq info.round (pos 0))) [
  | inl first ↦ rw first (
      omega
        (arith, layers, length-replicate {A = KeyLookupTable Expanded} info.num_layers new_table))
  | inr later ↦ rw later (tables later)
]

-- The first layer of a lightning round is open.
setup_new_lightning_round-IsOpen :
    {Expanded : Type 0} (s t : Server Expanded) (m size : ℕ)
    → m < length s.keys
    → setup_new_lightning_round s (m + 1) size ≡ ok t
    → IsOpen m 0 t
unfolding setup_new_lightning_round lightning_start
setup_new_lightning_round-IsOpen s t m size tables h =
    let (lengths, e₁, h₁) = >>=-eq-ok (lightning_message_lengths (m + 1) size) _ h in
    let (s₁, e₂, h₂) =
      >>=-eq-ok (open_layer (lightning_start s (m + 1) lengths) (pos 0) false) _ h₁ in
    let (r, e₃, h₃) = >>=-eq-ok (new_trustee_router s₁.links (m + 1)) _ h₂ in
    let (table, made, closed) = lightning_message_lengths_lem (m + 1) size in
    let whole : m + 1 < length lengths =
      subst (λ ls. m + 1 < length ls) (ok-injective (sym made ∙ e₁))
        (get_elem?-lt table (m + 1) (closed (m + 1) (omega arith))) in
    let size' : length (replicate {A = Option LightningRouter} (m + 1) none) ≡ m + 1 =
      length-replicate (m + 1) none in
    let (parsers, routers, room) =
      open_layer-IsOpen m 0 (lightning_start s (m + 1) lengths) s₁ false
        (tables, omega (arith, size'), whole) e₂ in
    subst (IsOpen m 0) (ok-injective h₃) (parsers, routers, room)

module _ {Expanded Point : Type 0} (token_size : ℕ) where
  round_setup-IsLightning :
      (callback : Callback) (x y : Node Expanded Point) (info : RoundInfo) (m : ℕ)
      → info.path_establishment ≡ false
      → info.num_layers ≡ m + 1
      → round_setup token_size callback x info ≡ ok y
      → IsLightning m 0 (control y.s)
  unfolding round_setup setup_lightning
  round_setup-IsLightning callback x y info m light layers h =
      let (x₂, e₁, h₁) = >>=-eq-ok (if info.path_establishment then _ else _) _ h in
      elim (if-branch info.path_establishment e₁) [
        | inl (path, e) ↦ absurd (ground (arith, path, light))
        | inr (_, e) ↦
            (let (t, e₂, h₂) =
                >>=-eq-ok
                  (setup_new_lightning_round (prepare_server x.s info) info.num_layers
                    info.message_size)
                  _ e in
              let (layer, going) = prepared x.s info in
              subst (λ z. IsLightning m 0 (control z))
                (ap (λ n. n.s) (ok-injective h₂) ∙ ap (λ n. n.s) (ok-injective h₁))
                (setup_new_lightning_round-IsLightning (prepare_server x.s info) t m
                  info.message_size layer going
                  (subst
                    (λ n.
                      setup_new_lightning_round (prepare_server x.s info) n info.message_size
                      ≡ ok t)
                    layers e₂)))
      ]

  round_setup-IsOpen :
      (callback : Callback) (x y : Node Expanded Point) (info : RoundInfo) (m : ℕ)
      → info.path_establishment ≡ false
      → info.num_layers ≡ m + 1
      → (beq info.round (pos 0) ≡ false → m < length x.s.keys)
      → round_setup token_size callback x info ≡ ok y
      → IsOpen m 0 y.s
  unfolding round_setup setup_lightning
  round_setup-IsOpen callback x y info m light layers tables h =
      let (x₂, e₁, h₁) = >>=-eq-ok (if info.path_establishment then _ else _) _ h in
      elim (if-branch info.path_establishment e₁) [
        | inl (path, e) ↦ absurd (ground (arith, path, light))
        | inr (_, e) ↦
            (let (t, e₂, h₂) =
                >>=-eq-ok
                  (setup_new_lightning_round (prepare_server x.s info) info.num_layers
                    info.message_size)
                  _ e in
              subst (λ z. IsOpen m 0 z)
                (ap (λ n. n.s) (ok-injective h₂) ∙ ap (λ n. n.s) (ok-injective h₁))
                (setup_new_lightning_round-IsOpen (prepare_server x.s info) t m info.message_size
                  (prepared-keys x.s info m layers tables)
                  (subst
                    (λ n.
                      setup_new_lightning_round (prepare_server x.s info) n info.message_size
                      ≡ ok t)
                    layers e₂)))
      ]

  -- A lightning round that has been set up goes on to its end. If `RoundSetup` has set up a lightning
  -- round of `m + 1` layers, with tables of keys for the layers from before unless it is round 0, then
  -- after any messages and the thresholds of `n` layers, `n` at most `m`, the server is at the layer
  -- `n`, which has its parser and its router. If the parser finds all keys accounted for, then
  -- `OnThreshold` and the end of its goroutine succeed, the server is at the layer `n + 1`, and the
  -- round is complete exactly if `n` was the last layer, `m`.
  pub round_setup-on_threshold :
      (xor_key_stream : Bytes → Bytes → Bytes → Bytes) (verify : Bytes → Bytes → Bytes → Bool)
      (verify_expanded : Expanded → Bytes → Bytes → Bool) (callback : Callback)
      (x y : Node Expanded Point) (s : Server Expanded) (info : RoundInfo) (m n : ℕ)
      → info.path_establishment ≡ false
      → info.num_layers ≡ m + 1
      → (beq info.round (pos 0) ≡ false → m < length x.s.keys)
      → round_setup token_size callback x info ≡ ok y
      → Reach xor_key_stream verify verify_expanded y.s s n
      → n ≤ m
      → IsAccounted s (pos n)
      → (u : Server Expanded) × (next : ℕ × ℤ) × (task : Task) × (t : Server Expanded) × (s.c.layer
          ≡ pos n)
        × IsOk (parser_at s (pos n))
        × IsOk (router_at s (pos n))
        × (on_threshold s (pos n) ≡ ok (u, next, task))
        × (finish u (pos n) task ≡ ok t)
        × (t.c.layer ≡ pos (n + 1))
        × ((t.is_round_complete ≡ true) ↔ (n ≡ m))
  round_setup-on_threshold xor_key_stream verify verify_expanded callback x y s info m n light
        layers tables h r below accounted =
      let start = round_setup-IsLightning callback x y info m light layers h in
      let (at_n, _) = Reach-IsLightning xor_key_stream verify verify_expanded m start r in
      let opened =
        Reach-IsOpen xor_key_stream verify verify_expanded m start
          (round_setup-IsOpen callback x y info m light layers tables h) r below in
      let (parser, router) = IsOpen-found m n s below opened in
      let (u, (k, next), task, t, called, ended) =
        threshold-IsOk m n s at_n below opened accounted in
      let ((layer, _, _, _, _, _, complete, _), _) =
        IsLightning-threshold m n s u t next k task at_n called ended in
      (
        u,
        (k, next),
        task,
        t,
        at_n.0,
        parser,
        router,
        called,
        ended,
        layer,
        last m n t.is_round_complete complete below,
      )
    where
      last : (m n : ℕ) (b : Bool) → b ≡ ltb m (n + 1) → n ≤ m → (b ≡ true) ↔ (n ≡ m)
      last m n b e bound = ground arith
