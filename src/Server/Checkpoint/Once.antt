-- ===== src/Server/Checkpoint/Once.antt =====
-- Sequences of trustee messages at a checkpoint.
use bmrng.Prelude.{
  ◌≡◌, refl, ap, sym, subst, ◌∙◌, ◌⊎◌, inl, inr, Bool, true, if◌then◌else◌, if-elim, some, List, [],
  ◌∷◌, ◌++◌,
}
use bmrng.Prelude.Assoc.{bytes_eq, bytes_beq, lookup, lookup-insert, lookup-insert_self}
use bmrng.Prelude.Outcome.{
  Outcome, ok, err, duplicate, decryption_failure, attempt-fail, Failure, by_error, by_panic, fail,
  Outcome-cases, >>=-eq-ok,
}
use bmrng.Prelude.Bytes.{Bytes}
use bmrng.Crypto.Keys.{lookup_key, lookup_key_total}
use bmrng.Server.Envelopes.{FinalLightningMessage, interpret_final}
use bmrng.Server.Checkpoint.{
  VerificationKeyTable, mark_key, get_and_mark, Checkpoint, accept_final, handle_trustee_message,
}
use bmrng.Server.Checkpoint.Counting.{mark_key-eq-ok}

module _ (verify_message : Bytes → Bytes → Bytes → Bool) where
  -- The checkpoint after a sequence of messages.
  unfoldable pub after : Checkpoint → List Bytes → Checkpoint
  after c [] = c
  after c (m ∷ ms) = after (handle_trustee_message verify_message c m).0 ms

  -- A message that is parsed and whose key is marked ends in one of two ways.
  handle-marked :
      (c : Checkpoint) (m : Bytes) (fm : FinalLightningMessage) (u : VerificationKeyTable)
      → interpret_final m ≡ ok fm
      → get_and_mark c.anonymous_signing_keys fm.anonymous_verification_key ≡ ok u
      → handle_trustee_message verify_message c m ≡ (
          if verify_message fm.anonymous_verification_key fm.message fm.signature
          then (
            record c {
              anonymous_signing_keys = u;
              final_messages = c.final_messages ++ fm.message ∷ [];
            },
            ok tt,
          )
          else (record c { anonymous_signing_keys = u }, err decryption_failure))
  unfolding handle_trustee_message accept_final
  handle-marked c m fm u p q = rw (p, q)

  -- Otherwise nothing changes.
  handle-refused :
      (c : Checkpoint) (m : Bytes) (fm : FinalLightningMessage) (f : Failure)
      → interpret_final m ≡ ok fm
      → get_and_mark c.anonymous_signing_keys fm.anonymous_verification_key ≡ fail f
      → handle_trustee_message verify_message c m ≡ (c, fail f)
  unfolding handle_trustee_message accept_final
  handle-refused c m fm f p q = rw (p, q) (attempt-fail c f _)

  handle-unparsed :
      (c : Checkpoint) (m : Bytes) (f : Failure)
      → interpret_final m ≡ fail f
      → handle_trustee_message verify_message c m ≡ (c, fail f)
  unfolding handle_trustee_message
  handle-unparsed c m f p = rw (p) (attempt-fail c f _)

  -- The message changes nothing, or it marks its key and is kept if its signature is good.
  pub data Handled (c : Checkpoint) (m : Bytes) : Checkpoint × Outcome (Unit {0}) → Type 0 where
    unchanged : (f : Failure) → Handled c m (c, fail f)
    kept :
        (fm : FinalLightningMessage) (u : VerificationKeyTable)
        → get_and_mark c.anonymous_signing_keys fm.anonymous_verification_key ≡ ok u
        → Handled c m (
          record c {
            anonymous_signing_keys = u;
            final_messages = c.final_messages ++ fm.message ∷ [];
          },
          ok tt,
        )
    burnt :
        (fm : FinalLightningMessage) (u : VerificationKeyTable)
        → get_and_mark c.anonymous_signing_keys fm.anonymous_verification_key ≡ ok u
        → Handled c m (record c { anonymous_signing_keys = u }, err decryption_failure)

  pub handle-Handled :
      (c : Checkpoint) (m : Bytes) → Handled c m (handle_trustee_message verify_message c m)
  handle-Handled c m = elim (Outcome-cases (interpret_final m)) [
    | inr (f, p) ↦ subst (Handled c m) (sym (handle-unparsed c m f p)) (unchanged f)
    | inl (fm, p) ↦
        elim (Outcome-cases (get_and_mark c.anonymous_signing_keys fm.anonymous_verification_key)) [
          | inr (f, q) ↦ subst (Handled c m) (sym (handle-refused c m fm f p q)) (unchanged f)
          | inl (u, q) ↦ subst (Handled c m) (sym (handle-marked c m fm u p q)) (
              if-elim (Handled c m)
                (verify_message fm.anonymous_verification_key fm.message fm.signature) (kept fm u q)
                (burnt fm u q))
        ]
  ]

  -- What a message does to the table: nothing, or one key is marked.
  table-Handled :
      (c : Checkpoint) (m : Bytes)
      → let t = (handle_trustee_message verify_message c m).0.anonymous_signing_keys in
        (t ≡ c.anonymous_signing_keys)
        ⊎ ((key : Bytes) × (get_and_mark c.anonymous_signing_keys key ≡ ok t))
  table-Handled c m = by_case _ (handle-Handled c m)
    where
      by_case :
          (r : Checkpoint × Outcome (Unit {0}))
          → Handled c m r
          → (r.0.anonymous_signing_keys ≡ c.anonymous_signing_keys)
            ⊎ ((key : Bytes) × (get_and_mark c.anonymous_signing_keys key
                  ≡ ok r.0.anonymous_signing_keys))
      by_case _ (unchanged f) = inl refl
      by_case _ (kept fm u q) = inr (fm.anonymous_verification_key, q)
      by_case _ (burnt fm u q) = inr (fm.anonymous_verification_key, q)

  -- A key that is marked.
  Used : VerificationKeyTable → Bytes → Type 0
  Used t buf = lookup buf t.keys ≡ some true

  get_and_mark-Used :
      (t u : VerificationKeyTable) (key buf : Bytes)
      → Used t buf
      → get_and_mark t key ≡ ok u
      → Used u buf
  unfolding Used get_and_mark
  get_and_mark-Used t u key buf h p =
      let (k, _, q) = >>=-eq-ok (lookup_key key) (mark_key t) p in
      let (found, e) = mark_key-eq-ok t u k q in
      rw (e, lookup-insert k buf true t.keys, h)
        (if-elim (λ o. o ≡ some true) (bytes_beq k buf) refl refl)

  after-Used :
      (c : Checkpoint) (ms : List Bytes) (buf : Bytes)
      → Used c.anonymous_signing_keys buf
      → Used (after c ms).anonymous_signing_keys buf
  unfolding after
  after-Used c [] buf h = h
  after-Used c (m ∷ ms) buf h =
      after-Used (handle_trustee_message verify_message c m).0 ms buf (elim (table-Handled c m) [
        | inl e ↦ subst (λ t. Used t buf) (sym e) h
        | inr (key, q) ↦ get_and_mark-Used c.anonymous_signing_keys _ key buf h q
      ])

  marks_key :
      (t u : VerificationKeyTable) (key buf : Bytes)
      → lookup_key key ≡ ok buf
      → get_and_mark t key ≡ ok u
      → Used u buf
  unfolding Used get_and_mark
  marks_key t u key buf p h =
      let (k, p', q) = >>=-eq-ok (lookup_key key) (mark_key t) h in
      let (found, e) = mark_key-eq-ok t u k q in
      rw (e, ← same_key (sym p' ∙ p)) (lookup-insert_self k true t.keys)
    where
      same_key : {k buf : Bytes} → ok k ≡ ok buf → k ≡ buf
      same_key e = cc

  marked_twice :
      (t : VerificationKeyTable) (buf : Bytes) → Used t buf → mark_key t buf ≡ err duplicate
  unfolding Used mark_key
  marked_twice t buf h = rw (mark_key, h)

  refuses-Used :
      (t : VerificationKeyTable) (key buf : Bytes)
      → lookup_key key ≡ ok buf
      → Used t buf
      → get_and_mark t key ≡ err duplicate
  unfolding Used get_and_mark
  refuses-Used t key buf p h = rw (p) (marked_twice t buf h)

  accepted-marks :
      (c : Checkpoint) (m : Bytes) (fm : FinalLightningMessage)
      → interpret_final m ≡ ok fm
      → (handle_trustee_message verify_message c m).1 ≡ ok tt
      → get_and_mark c.anonymous_signing_keys fm.anonymous_verification_key
        ≡ ok (handle_trustee_message verify_message c m).0.anonymous_signing_keys
  accepted-marks c m fm p accepted =
      elim (Outcome-cases (get_and_mark c.anonymous_signing_keys fm.anonymous_verification_key)) [
        | inr (f, q) ↦
            absurd (not_both f (sym (ap (λ r. r.1) (handle-refused c m fm f p q)) ∙ accepted))
        | inl (u, q) ↦
            q
            ∙ ap ok (
                sym (
                  ap (λ r. r.0.anonymous_signing_keys) (handle-marked c m fm u p q)
                  ∙ if-elim {A = Checkpoint × Outcome (Unit {0})}
                      (λ r. r.0.anonymous_signing_keys ≡ u)
                      (verify_message fm.anonymous_verification_key fm.message fm.signature) refl
                      refl))
      ]
    where
      not_both : (f : Failure) → fail {A = Unit {0}} f ≡ ok tt → ⊥
      not_both (by_error why) e = cc
      not_both by_panic e = cc

  -- A signing key serves for one message. Once a trustee message is accepted, whatever trustee
  -- messages come after it while no key is added and no mark is reset, another message under the same
  -- key is refused as a duplicate and changes nothing.
  pub trustee_once :
      (c : Checkpoint) (m m' : Bytes) (ms : List Bytes) (fm fm' : FinalLightningMessage)
      → interpret_final m ≡ ok fm
      → interpret_final m' ≡ ok fm'
      → fm.anonymous_verification_key ≡ fm'.anonymous_verification_key
      → (handle_trustee_message verify_message c m).1 ≡ ok tt
      → handle_trustee_message verify_message (after c (m ∷ ms)) m'
        ≡ (after c (m ∷ ms), err duplicate)
  unfolding after
  trustee_once c m m' ms fm fm' p p' same accepted =
      let c₁ = (handle_trustee_message verify_message c m).0 in
      let key = fm.anonymous_verification_key in
      let (buf, b) = lookup_key_total key in
      let u = marks_key _ _ key buf b (accepted-marks c m fm p accepted) in
      handle-refused (after c₁ ms) m' fm' (by_error duplicate) p'
        (rw (← same) (refuses-Used _ key buf b (after-Used c₁ ms buf u)))
