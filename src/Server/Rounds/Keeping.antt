-- ===== src/Server/Rounds/Keeping.antt =====
-- What the handlers of messages leave alone.
use bmrng.Prelude.{
  ℕ, ◌≡◌, refl, sym, ap, ◌∙◌, Bool, true, false, not, ltb, if◌then◌else◌, if-elim, List, length,
  set, get_elem?, length-set, Bool-cases, inl, inr, arith,
}
use bmrng.Prelude.Int.{ℤ, pos, negsuc, beq, ltz}
use bmrng.Prelude.Outcome.{Outcome, ok, panic, attempt-kept, ok-injective, >>=-eq-ok, ◌>>=◌}
use bmrng.Prelude.Bytes.{Bytes}
use bmrng.Server.KeyTable.{BootstrapKey}
use bmrng.Server.Onion.{
  Position, OnionParser, LightningRouter, authenticated_onion_parse, authenticated_onion_pack,
}
use bmrng.Server.Routers.{trustee_pack}
use bmrng.Server.Rounds.{
  Server, set_layer, parser_at, put_parser, router_at, put_router, pack_at, pass_on, pass_back,
  record_receipts, parse_then, present,
}

-- The control of a round: where it is, and where it goes.
pub record Control : Type 0 where
  pub c : Position
  pub last_layer : ℤ
  pub receipt_layer : ℤ
  pub path_layer : ℤ
  pub direction : ℤ
  pub path_round : Bool
  pub is_round_complete : Bool
  pub size : ℕ

abbrev pub control : {Expanded : Type 0} → Server Expanded → Control
control s = record {
  c = s.c;
  last_layer = s.last_layer;
  receipt_layer = s.receipt_layer;
  path_layer = s.path_layer;
  direction = s.direction;
  path_round = s.path_round;
  is_round_complete = s.is_round_complete;
  size = length s.onion_parsers;
}

pub length-set_layer :
    {A : Type 0} (xs ys : List A) (layer : ℤ) (x : A)
    → set_layer xs layer x ≡ ok ys
    → length ys ≡ length xs
unfolding set_layer
length-set_layer xs ys (negsuc i) x h = absurd (ground (arith, h))
length-set_layer xs ys (pos i) x h = elim (Bool-cases (ltb i (length xs))) [
  | inl inside ↦ ap length (sym (written xs ys i x inside h)) ∙ length-set xs i x
  | inr outside ↦ absurd (ground (arith, h, outside))
]
  where
    written :
        {A : Type 0} (xs ys : List A) (i : ℕ) (x : A)
        → ltb i (length xs) ≡ true
        → set_layer xs (pos i) x ≡ ok ys
        → set xs i x ≡ ys
    written xs ys i x inside h =
        ok-injective (ap (λ b. if b then ok (set xs i x) else panic) (sym inside) ∙ h)

module _ {Expanded : Type 0} where
  pub control-put_parser :
      (s t : Server Expanded) (layer : ℤ) (o : OnionParser Expanded)
      → put_parser s layer o ≡ ok t
      → control t ≡ control s
  unfolding put_parser
  control-put_parser s t layer o h =
      let (parsers, e₁, h₁) = >>=-eq-ok (set_layer s.onion_parsers layer _) _ h in
      let (keys, e₂, h₂) = >>=-eq-ok (set_layer s.keys layer _) _ h₁ in
      sym (ap control (ok-injective h₂))
      ∙ ap (λ n. record (control s) { size = n })
          (length-set_layer s.onion_parsers parsers layer _ e₁)

  pub control-put_router :
      (s t : Server Expanded) (layer : ℤ) (l : LightningRouter)
      → put_router s layer l ≡ ok t
      → control t ≡ control s
  unfolding put_router
  control-put_router s t layer l h =
      let (routers, e, h₁) = >>=-eq-ok (set_layer s.lightning_routers layer _) _ h in
      sym (ap control (ok-injective h₁))

  control-pack_at :
      (s : Server Expanded) (layer : ℤ) (d : Bytes) (k : BootstrapKey Expanded) (reverse : Bool)
      → control (pack_at s layer d k reverse).0 ≡ control s
  unfolding pack_at
  control-pack_at s layer d k reverse =
      attempt-kept (λ t. control t ≡ control s) s
        (router_at s layer >>= λ l. authenticated_onion_pack l d k reverse >>= put_router s layer)
        (λ s'. (s', ok tt)) refl
        λ t h.
          (let (l, e, h₁) = >>=-eq-ok (router_at s layer) _ h in
            let (l', e', h₂) = >>=-eq-ok (authenticated_onion_pack l d k reverse) _ h₁ in
            control-put_router s t layer l' h₂)

  pub control-pass_on :
      (s : Server Expanded) (layer : ℤ) (d : Bytes) (k : BootstrapKey Expanded)
      → control (pass_on s layer d k).0 ≡ control s
  unfolding pass_on
  control-pass_on s layer d k =
      if-elim {A = Server Expanded × Outcome (Unit {0})} (λ r. control r.0 ≡ control s)
        (not (beq layer s.last_layer)) (control-pack_at s layer d k false)
        (attempt-kept (λ t. control t ≡ control s) s (trustee_pack s.final_router d k)
          (λ t. (record s { final_router = t }, ok tt)) refl (λ t e. refl))

  pub control-pass_back :
      (s : Server Expanded) (layer : ℤ) (d : Bytes) (k : BootstrapKey Expanded)
      → control (pass_back s layer d k).0 ≡ control s
  unfolding pass_back record_receipts
  control-pass_back s layer d k =
      if-elim {A = Server Expanded × Outcome (Unit {0})} (λ r. control r.0 ≡ control s)
        (ltz s.receipt_layer layer) (control-pack_at s layer d k true)
        (if-elim {A = Server Expanded × Outcome (Unit {0})} (λ r. control r.0 ≡ control s)
          (beq layer (pos 0)) refl
          (if-elim {A = Server Expanded × Outcome (Unit {0})} (λ r. control r.0 ≡ control s)
            (beq layer s.receipt_layer) refl refl))

  module _ (xor_key_stream : Bytes → Bytes → Bytes → Bytes) (verify : Bytes → Bytes → Bytes → Bool)
      (verify_expanded : Expanded → Bytes → Bytes → Bool) where
    -- A message leaves the control of the round as it was, if what is done with its contents does.
    pub control-parse_then :
        (s : Server Expanded) (message : Bytes)
        (next : Server Expanded
          → ℤ
          → Bytes
          → BootstrapKey Expanded
          → Server Expanded × Outcome (Unit {0}))
        → ((t : Server Expanded) (layer : ℤ) (d : Bytes) (k : BootstrapKey Expanded)
            → control (next t layer d k).0 ≡ control t)
        → control (parse_then xor_key_stream verify verify_expanded s message next).0 ≡ control s
    unfolding parse_then
    control-parse_then s message next kept =
        attempt-kept (λ t. control t ≡ control s) s (parser_at s s.c.layer) _ refl
          λ o opened.
            (let (o', r) =
                authenticated_onion_parse xor_key_stream verify verify_expanded o message in
              attempt-kept (λ t. control t ≡ control s) s (put_parser s s.c.layer o') _ refl
                λ s' put.
                  (let same = control-put_parser s s' s.c.layer o' put in
                    attempt-kept (λ t. control t ≡ control s) s' r _ same
                      λ (decrypted, i) parsed.
                        attempt-kept (λ t. control t ≡ control s) s'
                          (present (get_elem? o'.key_table.heap i))
                          (λ k. next s' s.c.layer decrypted k) same
                          λ k found. kept s' s.c.layer decrypted k ∙ same))
