-- ===== src/Server/Rounds/Opened.antt =====
-- What is open at a layer: the parser, the router and the table of keys.
use bmrng.Prelude.{
  ℕ, zero, suc, ◌+◌, ◌<◌, ◌≤◌, ◌≡◌, refl, sym, ap, subst, ◌∙◌, Bool, true, false, not, ltb, ◌&&◌,
  if-elim, if-branch, Option, none, some, List, [], ◌∷◌, length, set, get_elem?, length-set, inl,
  inr, arith,
}
use bmrng.Prelude.Int.{ℤ, pos, negsuc, add, beq}
use bmrng.Prelude.Outcome.{Outcome, IsOk, ok, check, attempt-kept, ok-injective, >>=-eq-ok, ◌>>=◌}
use bmrng.Prelude.Bytes.{Bytes}
use bmrng.Server.KeyTable.{BootstrapKey}
use bmrng.Server.Onion.{
  OnionParser, LightningRouter, authenticated_onion_parse, authenticated_onion_pack,
  all_keys_accounted_for,
}
use bmrng.Server.Routers.{trustee_pack}
use bmrng.Server.Rounds.Thresholds.{IsLightning, control-check_complete}
use bmrng.Server.Rounds.Keeping.{control}
use bmrng.Server.Rounds.{
  Server, Task, at_layer, set_layer, parser_at, put_parser, router_at, put_router, pack_at, pass_on,
  parse_then, handle_lightning_message, present, router_for, open_layer, set_up_next,
  check_complete, account, on_threshold, finish,
}

-- There is something that is not nil at an index.
unfoldable pub holds : {A : Type 0} → List (Option A) → ℕ → Bool
holds [] i = false
holds (none ∷ xs) zero = false
holds (some x ∷ xs) zero = true
holds (x ∷ xs) (suc i) = holds xs i

pub holds-set :
    {A : Type 0} (xs : List (Option A)) (i j : ℕ) (x : A)
    → holds xs i ≡ true
    → holds (set xs j (some x)) i ≡ true
unfolding holds
holds-set [] i j x h = h
holds-set (y ∷ xs) zero zero x h = refl
holds-set (y ∷ xs) (suc i) zero x h = h
holds-set (none ∷ xs) zero (suc j) x h = h
holds-set (some y ∷ xs) zero (suc j) x h = h
holds-set (y ∷ xs) (suc i) (suc j) x h = holds-set xs i j x h

holds-set_self :
    {A : Type 0} (xs : List (Option A)) (i : ℕ) (x : A)
    → i < length xs
    → holds (set xs i (some x)) i ≡ true
unfolding holds
holds-set_self [] i x h = absurd (omega (arith, h))
holds-set_self (y ∷ xs) zero x h = refl
holds-set_self (y ∷ xs) (suc i) x h = holds-set_self xs i x (omega (arith, h))

-- The layer behind is freed.
holds-set-none :
    {A : Type 0} (xs : List (Option A)) (i j : ℕ)
    → i < j
    → holds xs j ≡ true
    → holds (set xs i none) j ≡ true
unfolding holds
holds-set-none [] i j below h = h
holds-set-none (y ∷ xs) i zero below h = absurd (omega (arith, below))
holds-set-none (y ∷ xs) zero (suc j) below h = h
holds-set-none (y ∷ xs) (suc i) (suc j) below h = holds-set-none xs i j (omega (arith, below)) h

pub holds-get_elem? :
    {A : Type 0} (xs : List (Option A)) (i : ℕ)
    → holds xs i ≡ true
    → (x : A) × (get_elem? xs i ≡ some (some x))
unfolding holds
holds-get_elem? [] i h = absurd (ground (arith, h))
holds-get_elem? (none ∷ xs) zero h = absurd (ground (arith, h))
holds-get_elem? (some x ∷ xs) zero h = (x, refl)
holds-get_elem? (x ∷ xs) (suc i) h = holds-get_elem? xs i h

-- A write at a layer in range.
set_layer-inside :
    {A : Type 0} (xs ys : List A) (i : ℕ) (x : A)
    → set_layer xs (pos i) x ≡ ok ys
    → (i < length xs) × (set xs i x ≡ ys)
unfolding set_layer
set_layer-inside xs ys i x h = elim (if-branch (ltb i (length xs)) h) [
  | inl (inside, e) ↦ (ground (arith, inside), ok-injective e)
  | inr (_, e) ↦ absurd (ground (arith, e))
]

set_layer-holds :
    {A : Type 0} (xs ys : List (Option A)) (i : ℕ) (layer : ℤ) (x : A)
    → set_layer xs layer (some x) ≡ ok ys
    → holds xs i ≡ true
    → holds ys i ≡ true
unfolding set_layer
set_layer-holds xs ys i (negsuc j) x h held = absurd (ground (arith, h))
set_layer-holds xs ys i (pos j) x h held =
    let (_, e) = set_layer-inside xs ys j (some x) h in
    subst (λ zs. holds zs i ≡ true) e (holds-set xs i j x held)

pub set_layer-length :
    {A : Type 0} (xs ys : List A) (layer : ℤ) (x : A)
    → set_layer xs layer x ≡ ok ys
    → length ys ≡ length xs
unfolding set_layer
set_layer-length xs ys (negsuc j) x h = absurd (ground (arith, h))
set_layer-length xs ys (pos j) x h =
    let (_, e) = set_layer-inside xs ys j x h in ap length (sym e) ∙ length-set xs j x

pub at_layer-get_elem? :
    {A : Type 0} (xs : List A) (i : ℕ) → i < length xs → (x : A) × (get_elem? xs i ≡ some x)
at_layer-get_elem? [] i h = absurd (omega (arith, h))
at_layer-get_elem? (x ∷ xs) zero h = (x, refl)
at_layer-get_elem? (x ∷ xs) (suc i) h = at_layer-get_elem? xs i (omega (arith, h))

module _ {Expanded : Type 0} where
  -- There is room for all layers up to `m`.
  abbrev pub IsRoomy : ℕ → Server Expanded → Type 0
  IsRoomy m s =
      (m < length s.keys)
      × (m < length s.lightning_routers)
      × (m + 1 < length s.links.onion_message_lengths)

  -- The layer has a parser and a router.
  abbrev pub IsOpen : ℕ → ℕ → Server Expanded → Type 0
  IsOpen m i s =
      (holds s.onion_parsers i ≡ true) × (holds s.lightning_routers i ≡ true) × IsRoomy m s

  -- What an open layer gives to the handlers and to the threshold.
  pub IsOpen-found :
      (m i : ℕ) (s : Server Expanded)
      → i ≤ m
      → IsOpen m i s
      → IsOk (parser_at s (pos i)) × IsOk (router_at s (pos i))
  unfolding parser_at router_at at_layer
  IsOpen-found m i s below (parsers, routers, (tables, _, _)) =
      let (p, e) = holds-get_elem? s.onion_parsers i parsers in
      let (l, e') = holds-get_elem? s.lightning_routers i routers in
      let (t, e'') = at_layer-get_elem? s.keys i (omega (arith, below, tables)) in
      (
        (
          record { c = s.c; count = p.count; key_table = t; reverse = p.reverse },
          rw (parser_at, at_layer, e, e'') refl,
        ),
        (l, rw (router_at, at_layer, e') refl),
      )

  IsOpen-put_parser :
      (m i : ℕ) (s t : Server Expanded) (layer : ℤ) (o : OnionParser Expanded)
      → put_parser s layer o ≡ ok t
      → IsOpen m i s
      → IsOpen m i t
  unfolding put_parser
  IsOpen-put_parser m i s t layer o h (parsers, routers, (tables, all, lengths)) =
      let (ps, e, h₁) = >>=-eq-ok (set_layer s.onion_parsers layer _) _ h in
      let (ks, e', h₂) = >>=-eq-ok (set_layer s.keys layer _) _ h₁ in
      subst (IsOpen m i) (ok-injective h₂) (
        set_layer-holds s.onion_parsers ps i layer _ e parsers,
        routers,
        (omega (arith, tables, set_layer-length s.keys ks layer _ e'), all, lengths),
      )

  IsOpen-put_router :
      (m i : ℕ) (s t : Server Expanded) (layer : ℤ) (l : LightningRouter)
      → put_router s layer l ≡ ok t
      → IsOpen m i s
      → IsOpen m i t
  unfolding put_router
  IsOpen-put_router m i s t layer l h (parsers, routers, (tables, all, lengths)) =
      let (ls, e, h₁) = >>=-eq-ok (set_layer s.lightning_routers layer _) _ h in
      let size = set_layer-length s.lightning_routers ls layer (some l) e in
      subst (IsOpen m i) (ok-injective h₁) (
        parsers,
        set_layer-holds s.lightning_routers ls i layer l e routers,
        (tables, omega (arith, all, size), lengths),
      )

  IsOpen-pass_on :
      (m i : ℕ) (s : Server Expanded) (layer : ℤ) (d : Bytes) (k : BootstrapKey Expanded)
      → IsOpen m i s
      → IsOpen m i (pass_on s layer d k).0
  unfolding pass_on pack_at
  IsOpen-pass_on m i s layer d k opened =
      if-elim {A = Server Expanded × Outcome (Unit {0})} (λ r. IsOpen m i r.0)
        (not (beq layer s.last_layer))
        (attempt-kept (IsOpen m i) s
          (router_at s layer >>= λ l. authenticated_onion_pack l d k false >>= put_router s layer)
          (λ s'. (s', ok tt)) opened
          (λ t h.
            (let (l, e, h₁) = >>=-eq-ok (router_at s layer) _ h in
              let (l', e', h₂) = >>=-eq-ok (authenticated_onion_pack l d k false) _ h₁ in
              IsOpen-put_router m i s t layer l' h₂ opened)))
        (attempt-kept (IsOpen m i) s (trustee_pack s.final_router d k)
          (λ t. (record s { final_router = t }, ok tt)) opened (λ t e. opened))

  -- A layer that is opened is open.
  pub open_layer-IsOpen :
      (m i : ℕ) (s t : Server Expanded) (reverse : Bool)
      → IsRoomy m s
      → open_layer s (pos i) reverse ≡ ok t
      → IsOpen m i t
  unfolding open_layer put_router
  open_layer-IsOpen m i s t reverse (tables, all, lengths) h =
      let (table, e, h₁) = >>=-eq-ok (at_layer s.keys (pos i)) _ h in
      let (ps, e₁, h₂) = >>=-eq-ok (set_layer s.onion_parsers (pos i) _) _ h₁ in
      let (l, e₂, h₃) = >>=-eq-ok (router_for s.links (pos i) reverse) _ h₂ in
      let (ls, e₃, h₄) = >>=-eq-ok (set_layer s.lightning_routers (pos i) _) _ h₃ in
      let (inside, written) = set_layer-inside s.onion_parsers ps i _ e₁ in
      let (inside', written') = set_layer-inside s.lightning_routers ls i _ e₃ in
      let size = set_layer-length s.lightning_routers ls (pos i) (some l) e₃ in
      subst (IsOpen m i) (ok-injective h₄) (
        subst (λ zs. holds zs i ≡ true) written (holds-set_self s.onion_parsers i _ inside),
        subst (λ zs. holds zs i ≡ true) written' (holds-set_self s.lightning_routers i _ inside'),
        (tables, omega (arith, all, size), lengths),
      )

  pub check_complete-IsOpen :
      (m i : ℕ) (s t : Server Expanded) (layer : ℤ)
      → check_complete s layer ≡ ok t
      → IsOpen m i s
      → IsOpen m i t
  unfolding check_complete account
  check_complete-IsOpen m i s t layer h opened = elim (if-branch (not (beq layer s.path_layer)) h) [
    | inl (_, e) ↦
        (let (o, found, e₁) = >>=-eq-ok (parser_at s layer) _ e in
          let (o', all) = all_keys_accounted_for o in
          let (_, _, e₂) = >>=-eq-ok (check all) _ e₁ in
          IsOpen-put_parser m i s t layer o' e₂ opened)
    | inr (_, e) ↦ subst (IsOpen m i) (ok-injective e) opened
  ]

  set_up_next-IsOpen :
      (m i : ℕ) (s t : Server Expanded)
      → s.path_round ≡ false
      → s.last_layer ≡ pos m
      → i < m
      → IsRoomy m s
      → set_up_next s (pos i) (pos (i + 1)) ≡ ok t
      → IsOpen m (i + 1) t
  unfolding set_up_next
  set_up_next-IsOpen m i s t light last below room h =
      elim (if-branch (not s.path_round && not (beq (pos i) s.last_layer)) h) [
        | inl (_, e) ↦ open_layer-IsOpen m (i + 1) s t false room e
        | inr (ended, _) ↦
            absurd (ground (arith, light, below, ended, ap (λ z. not (beq (pos i) z)) last))
      ]

  -- The threshold of a layer of a lightning round, below the last, opens the next.
  pub on_threshold-IsOpen :
      (m i : ℕ) (s u : Server Expanded) (next : ℤ) (threshold : ℕ) (task : Task)
      → IsLightning m i (control s)
      → i < m
      → IsOpen m i s
      → on_threshold s (pos i) ≡ ok (u, (threshold, next), task)
      → IsOpen m (i + 1) u
  unfolding on_threshold
  on_threshold-IsOpen m i s u next threshold task (_, last, _, _, up, light, _, _) below opened h =
      let (s₁, e₁, h₁) = >>=-eq-ok (check_complete s (pos i)) _ h in
      let after = add (pos i) s₁.direction in
      let moved = record s₁ { c = record s₁.c { layer = after } } in
      let (s₂, e₂, h₂) = >>=-eq-ok (set_up_next moved (pos i) after) _ h₁ in
      let (l, e₃, h₃) = >>=-eq-ok (router_at s₂ (pos i)) _ h₂ in
      let same = (control-check_complete s s₁ (pos i) e₁).0 in
      let (_, _, room) = check_complete-IsOpen m i s s₁ (pos i) e₁ opened in
      subst (IsOpen m (i + 1)) (ap (λ r. r.0) (ok-injective h₃)) (
        set_up_next-IsOpen m i moved s₂ (ap (λ k. k.path_round) same ∙ light)
          (ap (λ k. k.last_layer) same ∙ last) below room
          (subst (λ z. set_up_next moved (pos i) z ≡ ok s₂)
            (ap (add (pos i)) (ap (λ k. k.direction) same ∙ up)) e₂))

  pub IsOpen-finish :
      (m i : ℕ) (s t : Server Expanded) (task : Task)
      → finish s (pos i) task ≡ ok t
      → IsOpen m (i + 1) s
      → IsOpen m (i + 1) t
  unfolding finish
  IsOpen-finish m i s t task h (parsers, routers, (tables, all, lengths)) =
      let (ps, e, h₁) = >>=-eq-ok (set_layer s.onion_parsers (pos i) _) _ h in
      let (ls, e₁, h₂) = >>=-eq-ok (set_layer s.lightning_routers (pos i) _) _ h₁ in
      let (_, written) = set_layer-inside s.onion_parsers ps i none e in
      let (_, written') = set_layer-inside s.lightning_routers ls i none e₁ in
      let size = set_layer-length s.lightning_routers ls (pos i) none e₁ in
      subst (IsOpen m (i + 1)) (ok-injective h₂) (
        subst (λ zs. holds zs (i + 1) ≡ true) written
            (holds-set-none s.onion_parsers i (i + 1) (omega arith) parsers),
        subst (λ zs. holds zs (i + 1) ≡ true) written'
            (holds-set-none s.lightning_routers i (i + 1) (omega arith) routers),
        (tables, omega (arith, all, size), lengths),
      )

  module _ (xor_key_stream : Bytes → Bytes → Bytes → Bytes) (verify : Bytes → Bytes → Bytes → Bool)
      (verify_expanded : Expanded → Bytes → Bytes → Bool) where
    -- A message leaves a layer open.
    pub IsOpen-message :
        (m i : ℕ) (s : Server Expanded) (message : Bytes)
        → IsOpen m i s
        → IsOpen m i (handle_lightning_message xor_key_stream verify verify_expanded s message).0
    unfolding handle_lightning_message parse_then
    IsOpen-message m i s message opened =
        attempt-kept (IsOpen m i) s (parser_at s s.c.layer) _ opened λ o found.
          (let (o', r) =
              authenticated_onion_parse xor_key_stream verify verify_expanded o message in
            attempt-kept (IsOpen m i) s (put_parser s s.c.layer o') _ opened λ s' put.
              (let then_open = IsOpen-put_parser m i s s' s.c.layer o' put opened in
                attempt-kept (IsOpen m i) s' r _ then_open λ (decrypted, j) parsed.
                  attempt-kept (IsOpen m i) s' (present (get_elem? o'.key_table.heap j))
                    (λ k. pass_on s' s.c.layer decrypted k) then_open
                    λ k there. IsOpen-pass_on m i s' s.c.layer decrypted k then_open))
