-- ===== src/Server/Rounds/Thresholds.antt =====
-- What the threshold of a layer does to the control of a round (server/server.go, `OnThreshold`).
use bmrng.Prelude.{
  ℕ, suc, ◌+◌, ◌≤◌, ◌<◌, ◌≡◌, refl, sym, ap, ap₂, subst, ◌∙◌, Bool, true, false, not, ◌&&◌, ltb,
  ◌==◌, if◌then◌else◌, List, length, if-branch, zero, [], ◌∷◌, inl, inr, arith,
}
use bmrng.Prelude.Int.{ℤ, pos, negsuc, add, beq}
use bmrng.Prelude.Outcome.{IsOk, ok, ok-injective, >>=-eq-ok, check}
use bmrng.Server.Onion.{LightningRouter, OnionParser, all_keys_accounted_for}
use bmrng.Server.Rounds.{
  Server, Task, send_on, send_trustees, ask_groups, at_layer, parser_at, router_at, set_layer,
  check_complete, account, router_for, open_layer, set_up_next, task_of, on_threshold, completes,
  finish,
}
use bmrng.Server.Rounds.Keeping.{
  Control, control, length-set_layer, control-put_parser, control-put_router,
}

-- In a lightning round of `m + 1` layers, at the layer `n`, or behind the last.
abbrev pub IsLightning : ℕ → ℕ → Control → Type 0
IsLightning m n k =
    (k.c.layer ≡ pos n)
    × (k.last_layer ≡ pos m)
    × (k.receipt_layer ≡ negsuc 0)
    × (k.path_layer ≡ negsuc 0)
    × (k.direction ≡ pos 1)
    × (k.path_round ≡ false)
    × (k.is_round_complete ≡ ltb m n)
    × (k.size ≡ m + 1)

-- The control with the layer moved on in its direction.
abbrev moved_to : ℤ → Control → Control
moved_to layer k = record k { c = record k.c { layer = add layer k.direction } }

pub at_layer-bound :
    {A : Type 0} (xs : List A) (i : ℕ) (x : A) → at_layer xs (pos i) ≡ ok x → i < length xs
unfolding at_layer
at_layer-bound [] i x h = absurd (ground (arith, h))
at_layer-bound (y ∷ xs) zero x h = omega arith
at_layer-bound (y ∷ xs) (suc i) x h = omega (arith, at_layer-bound xs i x h)

abbrev ended_with : Task → Control → Control
ended_with task k = record k {
  is_round_complete = if completes task then true else k.is_round_complete;
}

completing : (m n : ℕ) → n ≤ m → (if n == m then true else ltb m n) ≡ ltb m (n + 1)
completing m n h = ground arith

pub omega-zero : (n : ℕ) → n ≡ n + 0
omega-zero n = omega arith

module _ {Expanded : Type 0} where
  parser_at-bound :
      (s : Server Expanded) (i : ℕ) (o : OnionParser Expanded)
      → parser_at s (pos i) ≡ ok o
      → i < length s.onion_parsers
  unfolding parser_at
  parser_at-bound s i o h =
      let (entry, e, h₁) = >>=-eq-ok (at_layer s.onion_parsers (pos i)) _ h in
      at_layer-bound s.onion_parsers i entry e

  control-account :
      (s t : Server Expanded) (layer : ℤ) (o : OnionParser Expanded)
      → account s layer o ≡ ok t
      → control t ≡ control s
  unfolding account
  control-account s t layer o h =
      let (o', all) = all_keys_accounted_for o in
      let (_, e, h₁) = >>=-eq-ok (check all) _ h in control-put_parser s t layer o' h₁

  -- The threshold of a layer that is not the path layer needs the layer's parser.
  pub control-check_complete :
      (s t : Server Expanded) (layer : ℤ)
      → check_complete s layer ≡ ok t
      → (control t ≡ control s) × (not (beq layer s.path_layer) ≡ true → IsOk (parser_at s layer))
  unfolding check_complete
  control-check_complete s t layer h = elim (if-branch (not (beq layer s.path_layer)) h) [
    | inl (checked, e) ↦
        (let (o, opened, e₁) = >>=-eq-ok (parser_at s layer) _ e in
          (control-account s t layer o e₁, λ _. (o, opened)))
    | inr (own, e) ↦ (sym (ap control (ok-injective e)), λ q. absurd (ground (arith, own, q)))
  ]

  pub control-open_layer :
      (s t : Server Expanded) (layer : ℤ) (reverse : Bool)
      → open_layer s layer reverse ≡ ok t
      → control t ≡ control s
  unfolding open_layer
  control-open_layer s t layer reverse h =
      let (table, e, h₁) = >>=-eq-ok (at_layer s.keys layer) _ h in
      let (parsers, e₁, h₂) = >>=-eq-ok (set_layer s.onion_parsers layer _) _ h₁ in
      let (l, e₂, h₃) = >>=-eq-ok (router_for s.links layer reverse) _ h₂ in
      control-put_router (record s { onion_parsers = parsers }) t layer l h₃
      ∙ ap (λ n. record (control s) { size = n })
          (length-set_layer s.onion_parsers parsers layer _ e₁)

  pub control-set_up_next :
      (s t : Server Expanded) (layer next : ℤ)
      → set_up_next s layer next ≡ ok t
      → control t ≡ control s
  unfolding set_up_next
  control-set_up_next s t layer next h =
      elim (if-branch (not s.path_round && not (beq layer s.last_layer)) h) [
        | inl (_, e) ↦ control-open_layer s t next false e
        | inr (_, e) ↦ elim (if-branch (s.path_round && not (beq layer s.receipt_layer)) e) [
          | inl (_, e₁) ↦ control-open_layer s t next true e₁
          | inr (_, e₁) ↦ sym (ap control (ok-injective e₁))
        ]
      ]

  control-finish :
      (s t : Server Expanded) (layer : ℤ) (task : Task)
      → finish s layer task ≡ ok t
      → control t ≡ record (control s) {
        is_round_complete = if completes task then true else s.is_round_complete;
      }
  unfolding finish
  control-finish s t layer task h =
      let (parsers, e, h₁) = >>=-eq-ok (set_layer s.onion_parsers layer _) _ h in
      let (routers, e₁, h₂) = >>=-eq-ok (set_layer s.lightning_routers layer _) _ h₁ in
      sym (ap control (ok-injective h₂))
      ∙ ap
          (λ n. record (control s) {
            is_round_complete = if completes task then true else s.is_round_complete;
            size = n;
          })
          (length-set_layer s.onion_parsers parsers layer _ e)

  completes-task_of :
      (s : Server Expanded) (m n : ℕ) (next : ℤ) (l : LightningRouter)
      → s.last_layer ≡ pos m
      → s.receipt_layer ≡ negsuc 0
      → s.path_round ≡ false
      → completes (task_of s (pos n) next l) ≡ (n == m)
  unfolding completes task_of
  completes-task_of s m n next l last receipt light = rw (receipt, last, light) (cases (n == m))
    where
      cases :
          (b : Bool)
          → completes (
              if not b
              then send_on false next l
              else if true
              then send_trustees s.final_router
              else ask_groups)
            ≡ b
      cases true = refl
      cases false = refl

  -- What a threshold does to the control, before the goroutine ends.
  control-on_threshold :
      (s u : Server Expanded) (layer next : ℤ) (threshold : ℕ) (task : Task)
      → on_threshold s layer ≡ ok (u, (threshold, next), task)
      → (control u ≡ record (control s) { c = record s.c { layer = add layer s.direction } })
        × ((l : LightningRouter) × (task ≡ task_of u layer next l))
        × (not (beq layer s.path_layer) ≡ true → IsOk (parser_at s layer))
  unfolding on_threshold
  control-on_threshold s u layer next threshold task h =
      let (s₁, e₁, h₁) = >>=-eq-ok (check_complete s layer) _ h in
      let after = add layer s₁.direction in
      let moved = record s₁ { c = record s₁.c { layer = after } } in
      let (s₂, e₂, h₂) = >>=-eq-ok (set_up_next moved layer after) _ h₁ in
      let (l, e₃, h₃) = >>=-eq-ok (router_at s₂ layer) _ h₂ in
      let same = ok-injective h₃ in
      let (checked, opened) = control-check_complete s s₁ layer e₁ in
      let to_u = ap (λ r. r.0) same in
      let to_next = ap (λ r. r.1.1) same in
      (
        sym (ap control to_u)
            ∙ (control-set_up_next moved s₂ layer after e₂ ∙ ap (moved_to layer) checked),
        (l, sym (ap (λ r. r.2) same) ∙ ap₂ (λ v z. task_of v layer z l) to_u to_next),
        opened,
      )

  pub IsLightning-threshold :
      (m n : ℕ) (s u t : Server Expanded) (next : ℤ) (threshold : ℕ) (task : Task)
      → IsLightning m n (control s)
      → on_threshold s (pos n) ≡ ok (u, (threshold, next), task)
      → finish u (pos n) task ≡ ok t
      → IsLightning m (n + 1) (control t) × (n ≤ m)
  IsLightning-threshold m n s u t next threshold task
        (layer, last, receipt, path, up, light, complete, size) called ended =
      let (moved, (l, job), opened) = control-on_threshold s u (pos n) next threshold task called in
      let (o, found) = opened (rw path refl) in
      let bound = parser_at-bound s n o found in
      let after = control-finish u t (pos n) task ended ∙ ap (ended_with task) moved in
      let done_now =
        ap completes job
        ∙ completes-task_of u m n next l (ap (λ k. k.last_layer) moved ∙ last)
            (ap (λ k. k.receipt_layer) moved ∙ receipt) (ap (λ k. k.path_round) moved ∙ light) in
      (
        subst (IsLightning m (n + 1)) (sym after) (
          ap (add (pos n)) up,
          last,
          receipt,
          path,
          up,
          light,
          rw (done_now, complete) (completing m n (omega (arith, bound, size))),
          size,
        ),
        omega (arith, bound, size),
      )
