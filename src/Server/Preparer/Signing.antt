-- ===== src/Server/Preparer/Signing.antt =====
-- Sequences of calls at a message preparer, and the tokens that one client is given.
use bmrng.Prelude.{
  ◌≡◌, ◌≢◌, refl, sym, ap, subst, ◌∙◌, Bool, true, false, if◌then◌else◌, Bool-cases, Option, none,
  some, inl, inr,
}
use bmrng.Prelude.Int.{ℤ, negsuc, ltz, beq, beq_iff, ltz_trans}
use bmrng.Server.Preparer.{PerClientInfo, MessagePreparer, find, revoke_client}
use bmrng.Server.Preparer.Effects.{find-insert, put, Effect, same, registered, marked, signed}

-- The client has had a token for the layer or a later one.
unfoldable pub Past : MessagePreparer → ℤ → ℤ → Type 0
Past p id layer =
    (info : PerClientInfo) × (find id p.clients ≡ some info) × (ltz info.signed layer ≡ false)

-- A client is replaced by one that has signed as much.
Past-put :
    (p : MessagePreparer) (id layer j : ℤ) (info : PerClientInfo)
    → ((old : PerClientInfo)
        → find j p.clients ≡ some old
        → ltz old.signed layer ≡ false
        → ltz info.signed layer ≡ false)
    → Past p id layer
    → Past (put p j (some info)) id layer
unfolding Past
Past-put p id layer j info later (old, found, past) = elim (Bool-cases (beq j id)) [
  | inl here ↦ (
    info,
    find-insert id j (some info) p.clients
        ∙ ap (λ b. if b then some info else find id p.clients) here,
    later old (ap (λ i. find i p.clients) ((beq_iff j id).0 here) ∙ found) past,
  )
  | inr there ↦ (
    old,
    find-insert id j (some info) p.clients
        ∙ (ap (λ b. if b then some info else find id p.clients) there ∙ found),
    past,
  )
]

some-injective : {a b : PerClientInfo} → some a ≡ some b → a ≡ b
some-injective e = cc

pub Past-Effect :
    (p : MessagePreparer) (q : MessagePreparer) (id layer : ℤ)
    → Effect p q
    → Past p id layer
    → Past q id layer
Past-Effect p _ id layer same h = h
Past-Effect p _ id layer (registered j key unknown) h =
    Past-put p id layer j (record { signature_key = key; signed = negsuc 0; submitted = false })
      (λ old found past. absurd (clash unknown found)) h
  where
    clash : {o : Option PerClientInfo} {old : PerClientInfo} → o ≡ none → o ≡ some old → ⊥
    clash e f = cc
Past-Effect p _ id layer (marked j info found fresh) h =
    Past-put p id layer j (record info { submitted = true })
      (λ old found' past.
        subst (λ i. ltz i.signed layer ≡ false) (some-injective (sym found' ∙ found)) past)
      h
Past-Effect p _ id layer (signed j info l found later) h =
    Past-put p id layer j (record info { signed = l })
      (λ old found' past.
        ltz_trans info.signed layer l later
          (subst (λ i. ltz i.signed layer ≡ false) (some-injective (sym found' ∙ found)) past))
      h

pub Past-revoke :
    (p : MessagePreparer) (id layer j : ℤ)
    → j ≢ id
    → Past p id layer
    → Past (revoke_client p j) id layer
unfolding Past revoke_client
Past-revoke p id layer j other (info, found, past) = (info, kept (beq j id) refl, past)
  where
    kept : (b : Bool) → beq j id ≡ b → find id (put p j none).clients ≡ some info
    kept true e = absurd (other ((beq_iff j id).0 e))
    kept false e = rw (find-insert id j none p.clients, e, found)
