-- ===== src/Server/Rounds/Progress.antt =====
-- The threshold of an open layer succeeds when all its keys are accounted for.
use bmrng.Prelude.{
  ℕ, zero, suc, ◌+◌, ◌<◌, ◌≤◌, ◌≡◌, refl, ap, ◌∙◌, true, false, not, ◌==◌, ◌&&◌, if◌then◌else◌,
  Option, none, some, List, [], ◌∷◌, length, set, get_elem?, lt→ltb, Bool-cases, inl, inr, arith,
}
use bmrng.Prelude.Int.{ℤ, pos, negsuc, add, beq}
use bmrng.Prelude.Outcome.{Outcome, IsOk, ok, panic, ◌>>=◌}
use bmrng.Server.Onion.{OnionParser, LightningRouter, all_keys_accounted_for}
use bmrng.Server.Routers.{Links, make_buffers, new_lightning_router}
use bmrng.Server.Rounds.{
  Server, Task, at_layer, set_layer, parser_at, put_parser, router_at, put_router, router_for,
  open_layer, set_up_next, check_complete, account, on_threshold, finish, completes, task_of,
}
use bmrng.Server.Rounds.Keeping.{control}
use bmrng.Server.Rounds.Thresholds.{IsLightning, control-check_complete, control-set_up_next}
use bmrng.Server.Rounds.Opened.{
  IsOpen, IsOpen-found, holds-get_elem?, at_layer-get_elem?, check_complete-IsOpen, holds,
  holds-set,
}

set_layer-IsOk :
    {A : Type 0} (xs : List A) (i : ℕ) (x : A)
    → i < length xs
    → set_layer xs (pos i) x ≡ ok (set xs i x)
unfolding set_layer
set_layer-IsOk xs i x inside = rw (set_layer, lt→ltb i (length xs) inside) refl

at_layer-IsOk : {A : Type 0} (xs : List A) (i : ℕ) → i < length xs → IsOk (at_layer xs (pos i))
unfolding at_layer
at_layer-IsOk xs i inside =
    let (x, e) = at_layer-get_elem? xs i inside in (x, rw (at_layer, e) refl)

holds-bound : {A : Type 0} (xs : List (Option A)) (i : ℕ) → holds xs i ≡ true → i < length xs
unfolding holds
holds-bound [] i h = absurd (ground (arith, h))
holds-bound (x ∷ xs) zero h = omega arith
holds-bound (none ∷ xs) (suc i) h = omega (arith, holds-bound xs i h)
holds-bound (some x ∷ xs) (suc i) h = omega (arith, holds-bound xs i h)

router_for-IsOk :
    (links : Links) (i : ℕ)
    → i + 1 < length links.onion_message_lengths
    → IsOk (router_for links (pos i) false)
unfolding router_for new_lightning_router
router_for-IsOk links i inside =
    let (n, e) = at_layer-get_elem? links.onion_message_lengths (i + 1) inside in
    (
      make_buffers links.num_servers 0 n links.bin_size [],
      ap
          (λ (o : Option ℕ). elim o [ none ↦ panic | some k ↦ ok k ] >>= λ k.
            ok (make_buffers links.num_servers 0 k links.bin_size []))
          e,
    )

module _ {Expanded : Type 0} where
  -- The threshold finds all keys of the layer used.
  abbrev pub IsAccounted : Server Expanded → ℤ → Type 0
  IsAccounted s layer =
      (o : OnionParser Expanded) → parser_at s layer ≡ ok o → (all_keys_accounted_for o).1 ≡ true

  check_complete-IsOk :
      (m i : ℕ) (s : Server Expanded)
      → i ≤ m
      → s.path_layer ≡ negsuc 0
      → m < length s.onion_parsers
      → IsOpen m i s
      → IsAccounted s (pos i)
      → IsOk (check_complete s (pos i))
  unfolding check_complete account put_parser
  check_complete-IsOk m i s below path parsers opened accounted =
      let ((o, found), _) = IsOpen-found m i s below opened in
      let (_, _, (tables, _, _)) = opened in
      let o' = (all_keys_accounted_for o).0 in
      (
        record s {
          onion_parsers =
              set s.onion_parsers i (some (record { count = o'.count; reverse = o'.reverse }));
          keys = set s.keys i o'.key_table;
        },
        ap (λ b. if b then (parser_at s (pos i) >>= account s (pos i)) else ok s)
              (ap (λ z. not (beq (pos i) z)) path)
            ∙ rw
                (
                  found,
                  accounted o found,
                  set_layer-IsOk s.onion_parsers i _ (omega (arith, below, parsers)),
                  set_layer-IsOk s.keys i _ (omega (arith, below, tables)),
                )
                refl,
      )

  open_layer-IsOk :
      (m i : ℕ) (s : Server Expanded)
      → i < m
      → m < length s.onion_parsers
      → IsOpen m i s
      → (t : Server Expanded) × (open_layer s (pos (i + 1)) false ≡ ok t)
        × (holds t.lightning_routers i ≡ true)
  unfolding open_layer put_router
  open_layer-IsOk m i s below parsers (_, held, (tables, routers, lengths)) =
      let (table, e) = at_layer-IsOk s.keys (i + 1) (omega (arith, below, tables)) in
      let (l, e') = router_for-IsOk s.links (i + 1) (omega (arith, below, lengths)) in
      (
        record s {
          onion_parsers =
              set s.onion_parsers (i + 1) (some (record { count = 0; reverse = false }));
          lightning_routers = set s.lightning_routers (i + 1) (some l);
        },
        rw
            (
              e,
              set_layer-IsOk s.onion_parsers (i + 1) _ (omega (arith, below, parsers)),
              e',
              set_layer-IsOk s.lightning_routers (i + 1) _ (omega (arith, below, routers)),
            )
            refl,
        holds-set s.lightning_routers i (i + 1) _ held,
      )

  set_up_next-IsOk :
      (m i : ℕ) (s : Server Expanded)
      → i ≤ m
      → s.path_round ≡ false
      → s.last_layer ≡ pos m
      → m < length s.onion_parsers
      → IsOpen m i s
      → (t : Server Expanded) × (set_up_next s (pos i) (pos (i + 1)) ≡ ok t)
        × (holds t.lightning_routers i ≡ true)
  unfolding set_up_next
  set_up_next-IsOk m i s below light last parsers opened = elim (Bool-cases (i == m)) [
    | inl ended ↦ (s, rw (light, last, ended) refl, opened.1)
    | inr going ↦
        (let (t, e, held) = open_layer-IsOk m i s (ground (arith, below, going)) parsers opened in
          (
            t,
            ap
                  (λ b.
                    if b
                    then open_layer s (pos (i + 1)) false
                    else if s.path_round && not (beq (pos i) s.receipt_layer)
                    then open_layer s (pos (i + 1)) true
                    else ok s)
                  (not_last light last going)
                ∙ e,
            held,
          ))
  ]
    where
      not_last :
          s.path_round ≡ false
          → s.last_layer ≡ pos m
          → (i == m) ≡ false
          → (not s.path_round && not (beq (pos i) s.last_layer)) ≡ true
      not_last light last going = rw (light, last, going) refl

  finish-IsOk :
      (i : ℕ) (s : Server Expanded) (task : Task)
      → i < length s.onion_parsers
      → i < length s.lightning_routers
      → IsOk (finish s (pos i) task)
  unfolding finish
  finish-IsOk i s task parsers routers = (
    record s {
      onion_parsers = set s.onion_parsers i none;
      lightning_routers = set s.lightning_routers i none;
      is_round_complete = if completes task then true else s.is_round_complete;
    },
    rw
        (
          set_layer-IsOk s.onion_parsers i none parsers,
          set_layer-IsOk s.lightning_routers i none routers,
        )
        refl,
  )

  found_router :
      (s : Server Expanded) (i : ℕ) (l : LightningRouter)
      → get_elem? s.lightning_routers i ≡ some (some l)
      → router_at s (pos i) ≡ ok l
  unfolding router_at at_layer
  found_router s i l e = rw (router_at, at_layer, e) refl

  -- What the threshold of an open layer does, if all keys are accounted for.
  pub threshold-IsOk :
      (m i : ℕ) (s : Server Expanded)
      → IsLightning m i (control s)
      → i ≤ m
      → IsOpen m i s
      → IsAccounted s (pos i)
      → (u : Server Expanded) × (next : ℕ × ℤ) × (task : Task) × (t : Server Expanded)
        × (on_threshold s (pos i) ≡ ok (u, next, task))
        × (finish u (pos i) task ≡ ok t)
  unfolding on_threshold
  threshold-IsOk m i s (_, last, _, path, up, light, _, size) below opened accounted =
      let (s₁, e₁) = check_complete-IsOk m i s below path (omega (arith, size)) opened accounted in
      let same = (control-check_complete s s₁ (pos i) e₁).0 in
      let opened₁ = check_complete-IsOpen m i s s₁ (pos i) e₁ opened in
      let moved = record s₁ { c = record s₁.c { layer = pos (i + 1) } } in
      let step = ap (λ k. k.direction) same ∙ up in
      let (s₂, e₂, held) =
        set_up_next-IsOk m i moved below (ap (λ k. k.path_round) same ∙ light)
          (ap (λ k. k.last_layer) same ∙ last) (omega (arith, size, ap (λ k. k.size) same))
          opened₁ in
      let (l, e₃) = holds-get_elem? s₂.lightning_routers i held in
      let go_on : Server Expanded → ℤ → Outcome (Server Expanded × (ℕ × ℤ) × Task) = λ v z.
        set_up_next (record v { c = record v.c { layer = z } }) (pos i) z >>= λ s'.
        router_at s' (pos i) >>= λ l'.
        ok (s', (s'.links.num_servers, z), task_of s' (pos i) z l') in
      let task = task_of s₂ (pos i) (pos (i + 1)) l in
      let (t, e₄) =
        finish-IsOk i s₂ task
          (omega (
            arith,
            below,
            size,
            ap (λ k. k.size) same,
            ap (λ k. k.size) (control-set_up_next moved s₂ (pos i) (pos (i + 1)) e₂),
          ))
          (holds-bound s₂.lightning_routers i held) in
      (
        s₂,
        (s₂.links.num_servers, pos (i + 1)),
        task,
        t,
        ap (λ o. o >>= λ v. go_on v (add (pos i) v.direction)) e₁
            ∙ (ap (λ z. go_on s₁ (add (pos i) z)) step ∙ rw (e₂, found_router s₂ i l e₃) refl),
        e₄,
      )
