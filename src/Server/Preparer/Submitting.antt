-- ===== src/Server/Preparer/Submitting.antt =====
-- Resets, and what a revocation does to them.
use bmrng.Prelude.{
  ◌≡◌, refl, Bool, true, false, if◌then◌else◌, if-elim, Option, none, some, List, [], ◌∷◌, arith,
}
use bmrng.Prelude.Int.{ℤ, negsuc, int_eq, beq}
use bmrng.Prelude.Assoc.{lookup, insert}
use bmrng.Prelude.Outcome.{ok, panic}
use bmrng.Server.Preparer.{
  PerClientInfo, MessagePreparer, or_nil, find, revoke_client, each_client, reset_signed,
  reset_submitted,
}

-- A record is nil.
unfoldable pub has_nil : List (ℤ × Option PerClientInfo) → Bool
has_nil [] = false
has_nil ((id, none) ∷ rest) = true
has_nil ((id, some info) ∷ rest) = has_nil rest

-- What the map has for a client, changed.
pub changed : (PerClientInfo → PerClientInfo) → Option PerClientInfo → Option PerClientInfo
changed f none = none
changed f (some info) = some (f info)

each_client-nil :
    (f : PerClientInfo → PerClientInfo) (clients : List (ℤ × Option PerClientInfo))
    → has_nil clients ≡ true
    → each_client f clients ≡ panic
unfolding each_client has_nil
each_client-nil f [] h = ground arith
each_client-nil f ((id, none) ∷ rest) h = refl
each_client-nil f ((id, some info) ∷ rest) h = rw (each_client-nil f rest h)

has_nil-insert :
    (id : ℤ) (clients : List (ℤ × Option PerClientInfo)) → has_nil (insert id none clients) ≡ true
unfolding has_nil insert
has_nil-insert id [] = refl
has_nil-insert id ((j, none) ∷ rest) = if-elim (λ l. has_nil l ≡ true) (beq j id) refl refl
has_nil-insert id ((j, some info) ∷ rest) =
    if-elim (λ l. has_nil l ≡ true) (beq j id) refl (has_nil-insert id rest)

-- A pass over records that are all there changes each of them, and no other entry.
each_client-find :
    (f : PerClientInfo → PerClientInfo) (clients : List (ℤ × Option PerClientInfo))
    → has_nil clients ≡ false
    → (done : List (ℤ × Option PerClientInfo)) × (each_client f clients ≡ ok done)
      × ((id : ℤ) → find id done ≡ changed f (find id clients))
unfolding each_client has_nil find lookup changed
each_client-find f [] h = ([], refl, λ id. refl)
each_client-find f ((j, none) ∷ rest) h = absurd (ground arith)
each_client-find f ((j, some info) ∷ rest) h =
    let (done, p, q) = each_client-find f rest h in
    ((j, some (f info)) ∷ done, rw (p), λ id. by_test (beq j id) _ _ (q id))
  where
    by_test :
        (b : Bool) (x y : Option (Option PerClientInfo))
        → or_nil x ≡ changed f (or_nil y)
        → or_nil (if b then some (some (f info)) else x)
          ≡ changed f (or_nil (if b then some (some info) else y))
    by_test true x y e = refl
    by_test false x y e = e

-- Once a client is revoked, neither reset returns: both run into its nil record and panic.
pub reset-revoke_client :
    (p : MessagePreparer) (id : ℤ)
    → (reset_submitted (revoke_client p id) ≡ panic) × (reset_signed (revoke_client p id) ≡ panic)
unfolding reset_submitted reset_signed revoke_client
reset-revoke_client p id = (
  rw (each_client-nil (λ info. record info { submitted = false }) _ (has_nil-insert id p.clients)),
  rw (each_client-nil (λ info. record info { signed = negsuc 0 }) _ (has_nil-insert id p.clients)),
)

-- While no client is revoked, `ResetSubmitted` returns; then each client is as it was but for the mark
-- of its submission, which is gone, and there are no other clients.
pub reset_submitted_lem :
    (p : MessagePreparer)
    → has_nil p.clients ≡ false
    → (q : MessagePreparer) × (reset_submitted p ≡ ok q)
      × ((id : ℤ)
          → find id q.clients
            ≡ changed (λ info. record info { submitted = false }) (find id p.clients))
unfolding reset_submitted
reset_submitted_lem p h =
    let (done, e, q) = each_client-find (λ info. record info { submitted = false }) p.clients h in
    (record p { clients = done }, rw (e), q)
