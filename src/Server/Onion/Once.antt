-- ===== src/Server/Onion/Once.antt =====
-- Sequences of messages at a parser.
use bmrng.Prelude.{
  ℕ, ◌+◌, ◌≡◌, ◌≢◌, refl, sym, ap, subst, ◌∙◌, Bool, true, false, Option-cases, inl, inr,
  if◌then◌else◌, Option, none, some, List, [], ◌∷◌, get_elem?, arith,
}
use bmrng.Prelude.Outcome.{
  Outcome, ok, err, panic, attempt, Failure, by_error, by_panic, fail, key_not_found, duplicate,
}
use bmrng.Prelude.Bytes.{Bytes}
use bmrng.Server.Envelopes.{LightningEnvelope, interpret_lightning}
use bmrng.Server.KeyTable.{BootstrapKey, find_key, set_used}
use bmrng.Server.Onion.{OnionParser, open_with, use_key, parse_with, authenticated_onion_parse}
use bmrng.Server.Onion.Usage.{
  used_keys, used_keys-set_used, Spent, Spent-set_used, set_used-Spent, Spent-fresh,
}

module _ {Expanded : Type 0} (xor_key_stream : Bytes → Bytes → Bytes → Bytes)
    (verify : Bytes → Bytes → Bytes → Bool)
    (verify_expanded : Expanded → Bytes → Bytes → Bool) where
  abbrev Result : Type 0
  Result = OnionParser Expanded × Outcome (Bytes × ℕ)

  -- A message changes nothing and fails, or it takes a record that was not used.
  pub data Parsed (o : OnionParser Expanded)
      : OnionParser Expanded × Outcome (Bytes × ℕ) → Type 0 where
    refused : (f : Failure) → Parsed o (o, fail f)
    taken :
        (i : ℕ) (k : BootstrapKey Expanded) (decrypted : Bytes)
        → get_elem? o.key_table.heap i ≡ some k
        → k.used ≡ false
        → Parsed o (
          record o {
            count = o.count + 1;
            key_table = record o.key_table { heap = set_used i true o.key_table.heap };
          },
          ok (decrypted, i),
        )

  attempt-Parsed :
      {In : Type 0} (o : OnionParser Expanded) (x : Outcome In) (next : In → Result)
      → ((a : In) → Parsed o (next a))
      → Parsed o (attempt o x next)
  attempt-Parsed o (ok a) next h = h a
  attempt-Parsed o (err why) next h = refused (by_error why)
  attempt-Parsed o panic next h = refused by_panic

  use_key-Parsed :
      (o : OnionParser Expanded) (i : ℕ) (k : BootstrapKey Expanded) (decrypted : Bytes)
      → get_elem? o.key_table.heap i ≡ some k
      → Parsed o (use_key xor_key_stream verify verify_expanded o i k decrypted)
  unfolding use_key
  use_key-Parsed o i k decrypted found = by_use k.used refl
    where
      by_use :
          (b : Bool)
          → k.used ≡ b
          → Parsed o (
              if b then (o, err duplicate) else (
                record o {
                  count = o.count + 1;
                  key_table = record o.key_table { heap = set_used i true o.key_table.heap };
                },
                ok (decrypted, i),
              ))
      by_use true e = refused (by_error duplicate)
      by_use false e = taken i k decrypted found e

  parse_with-Parsed :
      (o : OnionParser Expanded) (lm : LightningEnvelope) (p : Option ℕ)
      → Parsed o (parse_with xor_key_stream verify verify_expanded o lm p)
  unfolding parse_with
  parse_with-Parsed o lm none = refused (by_error key_not_found)
  parse_with-Parsed o lm (some i) = elim (Option-cases (get_elem? o.key_table.heap i)) [
    | inl e ↦ rw (parse_with, e) (refused by_panic)
    | inr (k, e) ↦
        rw (parse_with, e)
          (attempt-Parsed o (open_with xor_key_stream verify verify_expanded o lm k) _
            λ decrypted. use_key-Parsed o i k decrypted e)
  ]

  parse-Parsed :
      (o : OnionParser Expanded) (message : Bytes)
      → Parsed o (authenticated_onion_parse xor_key_stream verify verify_expanded o message)
  unfolding authenticated_onion_parse
  parse-Parsed o message =
      attempt-Parsed o (interpret_lightning message) _
        λ lm. parse_with-Parsed o lm (find_key o.key_table lm.key o.reverse)

  -- The parser after a sequence of messages.
  unfoldable pub after : OnionParser Expanded → List Bytes → OnionParser Expanded
  after o [] = o
  after o (m ∷ ms) =
      after (authenticated_onion_parse xor_key_stream verify verify_expanded o m).0 ms

  Spent-Parsed :
      (o : OnionParser Expanded) (r : Result) (j : ℕ)
      → Parsed o r
      → Spent o.key_table.heap j
      → Spent r.0.key_table.heap j
  Spent-Parsed o _ j (refused f) h = h
  Spent-Parsed o _ j (taken i k d found fresh) h = Spent-set_used i j o.key_table.heap h

  Spent-after :
      (o : OnionParser Expanded) (ms : List Bytes) (j : ℕ)
      → Spent o.key_table.heap j
      → Spent (after o ms).key_table.heap j
  unfolding after
  Spent-after o [] j h = h
  Spent-after o (m ∷ ms) j h =
      Spent-after (authenticated_onion_parse xor_key_stream verify verify_expanded o m).0 ms j
        (Spent-Parsed o _ j (parse-Parsed o m) h)

  counts-Parsed :
      (o : OnionParser Expanded) (r : Result)
      → Parsed o r
      → o.count ≡ used_keys o.key_table.heap
      → r.0.count ≡ used_keys r.0.key_table.heap
  counts-Parsed o _ (refused f) h = h
  counts-Parsed o _ (taken i k d found fresh) h =
      omega (arith, h, used_keys-set_used i o.key_table.heap k found fresh)

  -- The parser's count is the number of used records of its table, if it is so at first: through any
  -- sequence of messages, accepted or not.
  pub count-after :
      (o : OnionParser Expanded) (ms : List Bytes)
      → o.count ≡ used_keys o.key_table.heap
      → (after o ms).count ≡ used_keys (after o ms).key_table.heap
  unfolding after
  count-after o [] h = h
  count-after o (m ∷ ms) h =
      count-after (authenticated_onion_parse xor_key_stream verify verify_expanded o m).0 ms
        (counts-Parsed o _ (parse-Parsed o m) h)

  not_ok : (f : Failure) {x : Bytes × ℕ} → fail f ≡ ok x → ⊥
  not_ok (by_error why) e = cc
  not_ok by_panic e = cc

  same_place : {x y : Bytes × ℕ} → ok x ≡ ok y → x.1 ≡ y.1
  same_place e = ap (λ p. p.1) (same_value e)
    where
      same_value : {x y : Bytes × ℕ} → ok x ≡ ok y → x ≡ y
      same_value e = cc

  accepted-Spent :
      (o : OnionParser Expanded) (r : Result) (d : Bytes) (i : ℕ)
      → Parsed o r
      → r.1 ≡ ok (d, i)
      → Spent r.0.key_table.heap i
  accepted-Spent o _ d i (refused f) e = absurd (not_ok f e)
  accepted-Spent o _ d i (taken j k d' found fresh) e =
      subst (Spent (set_used j true o.key_table.heap)) (same_place e)
        (set_used-Spent j o.key_table.heap k found)

  accepted_fresh :
      (o : OnionParser Expanded) (r : Result) (d : Bytes) (i : ℕ)
      → Parsed o r
      → r.1 ≡ ok (d, i)
      → (k : BootstrapKey Expanded) × (get_elem? o.key_table.heap i ≡ some k) × (k.used ≡ false)
  accepted_fresh o _ d i (refused f) e = absurd (not_ok f e)
  accepted_fresh o _ d i (taken j k d' found fresh) e =
      (k, ap (get_elem? o.key_table.heap) (sym (same_place e)) ∙ found, fresh)

  -- Each record of the table serves for one message: of two accepted messages in a sequence, with any
  -- messages between them, the records are different, whatever their bytes and lookup keys.
  pub onion_once :
      (o : OnionParser Expanded) (m m' : Bytes) (ms : List Bytes) (d d' : Bytes) (i j : ℕ)
      → (authenticated_onion_parse xor_key_stream verify verify_expanded o m).1 ≡ ok (d, i)
      → (authenticated_onion_parse xor_key_stream verify verify_expanded (after o (m ∷ ms)) m').1
        ≡ ok (d', j)
      → i ≢ j
  unfolding after
  onion_once o m m' ms d d' i j first second same =
      let o₁ = (authenticated_onion_parse xor_key_stream verify verify_expanded o m).0 in
      let o₂ = after o₁ ms in
      let spent = Spent-after o₁ ms i (accepted-Spent o _ d i (parse-Parsed o m) first) in
      let (k, found, fresh) = accepted_fresh o₂ _ d' j (parse-Parsed o₂ m') second in
      Spent-fresh o₂.key_table.heap j k (subst (Spent o₂.key_table.heap) same spent) found fresh
