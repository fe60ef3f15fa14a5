-- ===== src/Server/Preparer/Tokens.antt =====
-- The tokens that one client is given.
use bmrng.Prelude.{
  ℕ, ◌≡◌, ◌≢◌, refl, sym, ap, subst, ◌∙◌, Bool, true, false, ◌||◌, if◌then◌else◌, Option, none,
  some,
}
use bmrng.Prelude.Int.{ℤ, ltz, is_negative, ltz_irrefl, ltz-false_trans}
use bmrng.Prelude.Outcome.{
  Error, Outcome, ok, err, panic, attempt, Failure, by_error, by_panic, fail, duplicate, signature,
  bad_metadata, client_not_found, ◌>>=◌,
}
use bmrng.Prelude.Bytes.{Bytes}
use bmrng.Network.Message.{SignedMessage, data_of}
use bmrng.Server.Preparer.{
  PerClientInfo, MessagePreparer, TokenRequest, find, revoke_client, register_client,
  validate_signature, mark_submitted, interpret_token_request, sign_token, token_found,
  handle_token_request,
}
use bmrng.Server.Preparer.Effects.{
  find-insert_self, register_client-Effect, mark_submitted-Effect, handle_token_request-Effect,
}
use bmrng.Server.Preparer.Signing.{Past, Past-Effect, Past-revoke}

-- The call failed and the preparer is as it was.
abbrev pub IsRefused {ℓ} : {Out : Type ℓ} → MessagePreparer → MessagePreparer × Outcome Out → Type ℓ
IsRefused p r = (f : Failure) × (r ≡ (p, fail f))

attempt-IsRefused :
    {In Out : Type 0} (p : MessagePreparer) (o : Outcome In)
    (next : In → MessagePreparer × Outcome Out)
    → ((a : In) → o ≡ ok a → IsRefused p (next a))
    → IsRefused p (attempt p o next)
attempt-IsRefused p (ok a) next h = h a refl
attempt-IsRefused p (err why) next h = (by_error why, refl)
attempt-IsRefused p panic next h = (by_panic, refl)

if-IsRefused :
    {Out : Type 0} (p : MessagePreparer) (b : Bool) (x y : MessagePreparer × Outcome Out)
    → IsRefused p x
    → IsRefused p y
    → IsRefused p (if b then x else y)
if-IsRefused p true x y h k = h
if-IsRefused p false x y h k = k

not_ok : {Out : Type 0} (f : Failure) {r : Out} → fail f ≡ ok r → ⊥
not_ok (by_error why) e = cc
not_ok by_panic e = cc

-- A call that returned a value passed each of its tests.
attempt-ok :
    {In Out : Type 0} (p : MessagePreparer) (o : Outcome In)
    (next : In → MessagePreparer × Outcome Out) {r : Out}
    → (attempt p o next).1 ≡ ok r
    → (a : In) × (o ≡ ok a) × (attempt p o next ≡ next a)
attempt-ok p (ok a) next h = (a, refl, refl)
attempt-ok p (err why) next h = absurd (not_ok (by_error why) h)
attempt-ok p panic next h = absurd (not_ok by_panic h)

then-ok :
    {Out : Type 0} (p : MessagePreparer) (b : Bool) (x : MessagePreparer × Outcome Out) (e : Error)
    {r : Out}
    → (if b then x else (p, err e)).1 ≡ ok r
    → (b ≡ true) × ((if b then x else (p, err e)) ≡ x)
then-ok p true x e h = (refl, refl)
then-ok p false x e h = absurd (not_ok (by_error e) h)

else-ok :
    {Out : Type 0} (p : MessagePreparer) (b : Bool) (y : MessagePreparer × Outcome Out) (e : Error)
    {r : Out}
    → (if b then (p, err e) else y).1 ≡ ok r
    → (if b then (p, err e) else y) ≡ y
else-ok p true y e h = absurd (not_ok (by_error e) h)
else-ok p false y e h = refl

module _ {Token : Type 0} (token_len : ℕ) (interpret_token : Bytes → Outcome Token)
    (blind_sign : Token → Outcome Token) (respond : SignedMessage → Token → SignedMessage)
    (verify_message : Bytes → Bytes → Bytes → Bool) where
  abbrev request_of : SignedMessage → Outcome (TokenRequest Token)
  request_of m =
      data_of m
      >>= interpret_token_request token_len interpret_token blind_sign respond verify_message

  abbrev answer : MessagePreparer → SignedMessage → MessagePreparer × Outcome SignedMessage
  answer = handle_token_request token_len interpret_token blind_sign respond verify_message

  -- Calls at the preparer in some order, in which the client is not revoked.
  pub data Run (id : ℤ) (p : MessagePreparer) : MessagePreparer → Type 0 where
    start : Run id p p
    after_register :
        {q : MessagePreparer}
        → Run id p q
        → (m : SignedMessage) → Run id p (register_client verify_message q m).0
    after_submit :
        {q : MessagePreparer}
        → Run id p q
        → (j : ℤ) (m : SignedMessage) → Run id p (mark_submitted verify_message q j m).0
    after_token :
        {q : MessagePreparer}
        → Run id p q
        → (m : SignedMessage)
        → Run id p
            (handle_token_request token_len interpret_token blind_sign respond verify_message q m).0
    after_revoke :
        {q : MessagePreparer} → Run id p q → (j : ℤ) → j ≢ id → Run id p (revoke_client q j)

  Past-Run : (id layer : ℤ) {p q : MessagePreparer} → Run id p q → Past p id layer → Past q id layer
  Past-Run id layer start h = h
  Past-Run id layer (after_register {q = q} run m) h =
      Past-Effect q _ id layer (register_client-Effect verify_message q m) (Past-Run id layer run h)
  Past-Run id layer (after_submit {q = q} run j m) h =
      Past-Effect q _ id layer (mark_submitted-Effect verify_message q j m)
        (Past-Run id layer run h)
  Past-Run id layer (after_token {q = q} run m) h =
      Past-Effect q _ id layer
        (handle_token_request-Effect token_len interpret_token blind_sign respond verify_message q
          m)
        (Past-Run id layer run h)
  Past-Run id layer (after_revoke {q = q} run j other) h =
      Past-revoke q id layer j other (Past-Run id layer run h)

  -- Once a client has a token for the layer or a later one, the same request is refused.
  found-IsRefused :
      (p : MessagePreparer) (m : SignedMessage) (request : TokenRequest Token)
      (info : PerClientInfo)
      → ltz info.signed m.metadata.layer ≡ false
      → IsRefused p (
          token_found token_len interpret_token blind_sign respond verify_message p m request
            (some info))
  unfolding token_found sign_token
  found-IsRefused p m request info past =
      attempt-IsRefused p (validate_signature verify_message info.signature_key m) _ λ valid _.
        if-IsRefused p valid _ _
          (attempt-IsRefused p (blind_sign request.token_request) _
            λ t _. (by_error duplicate, rw (past)))
          (by_error signature, refl)

  found-Past :
      (p : MessagePreparer) (m : SignedMessage) (request : TokenRequest Token)
      (o : Option PerClientInfo) {r : SignedMessage}
      → (token_found token_len interpret_token blind_sign respond verify_message p m request o).1
        ≡ ok r
      → Past
          (token_found token_len interpret_token blind_sign respond verify_message p m request o).0
          request.id
          m.metadata.layer
  unfolding token_found sign_token Past
  found-Past p m request none h = absurd (not_ok (by_error client_not_found) h)
  found-Past p m request (some info) h =
      let (valid, _, e₁) =
        attempt-ok p (validate_signature verify_message info.signature_key m) _ h in
      let (_, e₂) = then-ok p valid _ signature (ap (λ r. r.1) (sym e₁) ∙ h) in
      let (t, _, e₃) =
        attempt-ok p (blind_sign request.token_request) _ (ap (λ r. r.1) (sym (e₁ ∙ e₂)) ∙ h) in
      let (_, e₄) =
        then-ok p (ltz info.signed m.metadata.layer) _ duplicate
          (ap (λ r. r.1) (sym (e₁ ∙ e₂ ∙ e₃)) ∙ h) in
      subst (λ r. Past r.0 request.id m.metadata.layer) (sym (e₁ ∙ e₂ ∙ e₃ ∙ e₄))
        (
          record info { signed = m.metadata.layer },
          find-insert_self request.id _ p.clients,
          ltz_irrefl m.metadata.layer,
        )

  answer-request :
      (p : MessagePreparer) (m : SignedMessage) (request : TokenRequest Token)
      → request_of m ≡ ok request
      → answer p m ≡ (
          if is_negative m.metadata.layer || ltz p.num_layers m.metadata.layer
          then (p, err bad_metadata)
          else token_found token_len interpret_token blind_sign respond verify_message p m request
              (find request.id p.clients))
  unfolding handle_token_request
  answer-request p m request h = rw (h)

  answer-Past :
      (p : MessagePreparer) (m : SignedMessage) (request : TokenRequest Token) {r : SignedMessage}
      → request_of m ≡ ok request
      → (answer p m).1 ≡ ok r
      → Past (answer p m).0 request.id m.metadata.layer
  answer-Past p m request h given =
      let e = answer-request p m request h in
      let bad = is_negative m.metadata.layer || ltz p.num_layers m.metadata.layer in
      let e' = else-ok p bad _ bad_metadata (ap (λ r. r.1) (sym e) ∙ given) in
      subst (λ r. Past r.0 request.id m.metadata.layer) (sym (e ∙ e'))
        (found-Past p m request (find request.id p.clients) (ap (λ r. r.1) (sym (e ∙ e')) ∙ given))

  unpacked :
      (p : MessagePreparer) (id layer : ℤ)
      → Past p id layer
      → (info : PerClientInfo) × (find id p.clients ≡ some info) × (ltz info.signed layer ≡ false)
  unfolding Past
  unpacked p id layer h = h

  -- A client is given at most one token for a layer, and none for a lower one afterwards. If a request
  -- is answered with a token, then in every state that the preparer reaches by registrations,
  -- submissions, token requests and revocations of other clients, a request of the same client for
  -- the same layer or a lower one fails and changes nothing.
  pub token_once :
      (p q : MessagePreparer) (m m' : SignedMessage) (request request' : TokenRequest Token)
      (r : SignedMessage)
      → data_of m
          >>= interpret_token_request token_len interpret_token blind_sign respond verify_message
        ≡ ok request
      → data_of m'
          >>= interpret_token_request token_len interpret_token blind_sign respond verify_message
        ≡ ok request'
      → request.id ≡ request'.id
      → ltz m.metadata.layer m'.metadata.layer ≡ false
      → (handle_token_request token_len interpret_token blind_sign respond verify_message p m).1
        ≡ ok r
      → Run request.id
          (handle_token_request token_len interpret_token blind_sign respond verify_message p m).0
          q
      → (f : Failure) × (handle_token_request token_len interpret_token blind_sign respond
            verify_message q m'
          ≡ (q, fail f))
  token_once p q m m' request request' r h h' same_id lower given run =
      let (info, found, past) =
        unpacked q request.id m.metadata.layer
          (Past-Run request.id m.metadata.layer run (answer-Past p m request h given)) in
      subst (IsRefused q) (sym (answer-request q m' request' h')) (
        if-IsRefused q (is_negative m'.metadata.layer || ltz q.num_layers m'.metadata.layer) _ _
          (by_error bad_metadata, refl)
          (subst
            (λ o. IsRefused q (
              token_found token_len interpret_token blind_sign respond verify_message q m' request'
                o))
            (sym (ap (λ id. find id q.clients) (sym same_id) ∙ found))
            (found-IsRefused q m' request' info
              (ltz-false_trans info.signed m.metadata.layer m'.metadata.layer past lower))))
