-- ===== src/Server/Preparer/Effects.antt =====
-- What each call does to the map of the clients.
use bmrng.Prelude.{
  ℕ, ◌≡◌, refl, ap, ◌∙◌, Bool, true, false, ◌||◌, if◌then◌else◌, Option, none, some, List,
}
use bmrng.Prelude.Int.{ℤ, negsuc, ltz, is_negative, int_eq, beq, beq_iff}
use bmrng.Prelude.Assoc.{lookup, insert, lookup-insert}
use bmrng.Prelude.Outcome.{Outcome, ok, err, panic, attempt, ◌>>=◌}
use bmrng.Prelude.Bytes.{Bytes}
use bmrng.Network.Message.{SignedMessage, data_of}
use bmrng.Server.Preparer.{
  PerClientInfo, MessagePreparer, NewClientRequest, TokenRequest, find, mark_found, token_found,
  register, register_client, validate_signature, interpret_client_request, mark_submitted,
  interpret_token_request, sign_token, handle_token_request,
}

pub find-insert :
    (id j : ℤ) (v : Option PerClientInfo) (m : List (ℤ × Option PerClientInfo))
    → find id (insert j v m) ≡ (if beq j id then v else find id m)
unfolding find
find-insert id j v m = rw (find, lookup-insert j id v m) (pushed (beq j id) v (lookup id m))
  where
    pushed :
        (b : Bool) (v : Option PerClientInfo) (o : Option (Option PerClientInfo))
        → (elim (if b then some v else o) [ none ↦ none | some info ↦ info ])
          ≡ (if b then v else elim o [ none ↦ none | some info ↦ info ])
    pushed true v o = refl
    pushed false v o = refl

-- The client at `id` is replaced.
abbrev pub put : MessagePreparer → ℤ → Option PerClientInfo → MessagePreparer
put p id v = record p { clients = insert id v p.clients }

pub data Effect (p : MessagePreparer) : MessagePreparer → Type 0 where
  same : Effect p p
  registered :
      (id : ℤ) (key : Bytes)
      → find id p.clients ≡ none
      → Effect p
          (put p id (some (record { signature_key = key; signed = negsuc 0; submitted = false })))
  marked :
      (id : ℤ) (info : PerClientInfo)
      → find id p.clients ≡ some info
      → info.submitted ≡ false
      → Effect p (put p id (some (record info { submitted = true })))
  signed :
      (id : ℤ) (info : PerClientInfo) (layer : ℤ)
      → find id p.clients ≡ some info
      → ltz info.signed layer ≡ true
      → Effect p (put p id (some (record info { signed = layer })))

-- A failure leaves the map alone.
attempt-Effect :
    {In Out : Type 0} (p : MessagePreparer) (o : Outcome In)
    (next : In → MessagePreparer × Outcome Out)
    → ((a : In) → Effect p (next a).0)
    → Effect p (attempt p o next).0
attempt-Effect p (ok a) next h = h a
attempt-Effect p (err why) next h = same
attempt-Effect p panic next h = same

if-Effect :
    {Out : Type 0} (p : MessagePreparer) (b : Bool) (x y : MessagePreparer × Outcome Out)
    → (b ≡ true → Effect p x.0)
    → (b ≡ false → Effect p y.0)
    → Effect p (if b then x else y).0
if-Effect p true x y h k = h refl
if-Effect p false x y h k = k refl

module _ (verify_message : Bytes → Bytes → Bytes → Bool) where
  register-Effect :
      (p : MessagePreparer) (n : NewClientRequest) (o : Option PerClientInfo)
      → find n.id p.clients ≡ o
      → Effect p (register verify_message p n o).0
  unfolding register
  register-Effect p n none e = registered n.id n.verification_key e
  register-Effect p n (some info) e = same

  pub register_client-Effect :
      (p : MessagePreparer) (m : SignedMessage) → Effect p (register_client verify_message p m).0
  unfolding register_client
  register_client-Effect p m = attempt-Effect p (data_of m >>= interpret_client_request) _ λ n.
      attempt-Effect p (validate_signature verify_message n.verification_key m) _ λ valid.
        if-Effect p valid _ _ (λ _. register-Effect p n (find n.id p.clients) refl) (λ _. same)

  mark_found-Effect :
      (p : MessagePreparer) (id : ℤ) (m : SignedMessage) (o : Option PerClientInfo)
      → find id p.clients ≡ o
      → Effect p (mark_found verify_message p id m o).0
  unfolding mark_found
  mark_found-Effect p id m none e = same
  mark_found-Effect p id m (some info) e =
      attempt-Effect p (validate_signature verify_message info.signature_key m) _ λ valid.
        if-Effect p valid _ _
          (λ _. if-Effect p info.submitted _ _ (λ _. same) (λ new. marked id info e new))
          (λ _. same)

  pub mark_submitted-Effect :
      (p : MessagePreparer) (id : ℤ) (m : SignedMessage)
      → Effect p (mark_submitted verify_message p id m).0
  unfolding mark_submitted
  mark_submitted-Effect p id m = mark_found-Effect p id m (find id p.clients) refl

module _ {Token : Type 0} (token_len : ℕ) (interpret_token : Bytes → Outcome Token)
    (blind_sign : Token → Outcome Token) (respond : SignedMessage → Token → SignedMessage)
    (verify_message : Bytes → Bytes → Bytes → Bool) where
  token_found-Effect :
      (p : MessagePreparer) (m : SignedMessage) (request : TokenRequest Token)
      (o : Option PerClientInfo)
      → find request.id p.clients ≡ o
      → Effect p
          (token_found token_len interpret_token blind_sign respond verify_message p m request o).0
  unfolding token_found sign_token
  token_found-Effect p m request none e = same
  token_found-Effect p m request (some info) e =
      attempt-Effect p (validate_signature verify_message info.signature_key m) _ λ valid.
        if-Effect p valid _ _
          (λ _. attempt-Effect p (blind_sign request.token_request) _ λ t.
            if-Effect p (ltz info.signed m.metadata.layer) _ _
              (λ later. signed request.id info m.metadata.layer e later) (λ _. same))
          (λ _. same)

  pub handle_token_request-Effect :
      (p : MessagePreparer) (m : SignedMessage)
      → Effect p
          (handle_token_request token_len interpret_token blind_sign respond verify_message p m).0
  unfolding handle_token_request
  handle_token_request-Effect p m =
      attempt-Effect p
        (data_of m
          >>= interpret_token_request token_len interpret_token blind_sign respond verify_message)
        _
        λ request.
          if-Effect p (is_negative m.metadata.layer || ltz p.num_layers m.metadata.layer) _ _
            (λ _. same) (λ _. token_found-Effect p m request (find request.id p.clients) refl)

pub find-insert_self :
    (id : ℤ) (v : Option PerClientInfo) (m : List (ℤ × Option PerClientInfo))
    → find id (insert id v m) ≡ v
find-insert_self id v m =
    find-insert id id v m ∙ ap (λ b. if b then v else find id m) ((beq_iff id id).1 refl)
