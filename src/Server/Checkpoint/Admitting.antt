-- ===== src/Server/Checkpoint/Admitting.antt =====
-- Adding a key to the table, new or known.
use bmrng.Prelude.{
  ◌+◌, ◌≡◌, ◌≢◌, refl, sym, ap, subst, ◌∙◌, Bool, true, false, some, List, [], ◌∷◌, arith,
}
use bmrng.Prelude.Assoc.{bytes_eq, lookup, insert, lookup-insert_self}
use bmrng.Prelude.Outcome.{ok, ◌>>=◌, >>=-eq-ok}
use bmrng.Prelude.Bytes.{Bytes}
use bmrng.Crypto.Keys.{lookup_key}
use bmrng.Server.Checkpoint.{VerificationKeyTable, add, mark_key, get_and_mark}
use bmrng.Server.Checkpoint.Counting.{IsCounted, marked, mark_key-eq-ok, get_and_mark-IsCounted}

marked-insert_new :
    (k : Bytes) (m : List (Bytes × Bool))
    → lookup k m ≢ some true
    → marked (insert k false m) ≡ marked m
unfolding marked lookup insert
marked-insert_new k [] h = refl
marked-insert_new k ((j, true) ∷ rest) h = ground (arith, marked-insert_new k rest)
marked-insert_new k ((j, false) ∷ rest) h = ground (arith, marked-insert_new k rest)

marked-insert-marked :
    (k : Bytes) (m : List (Bytes × Bool))
    → lookup k m ≡ some true
    → marked (insert k false m) + 1 ≡ marked m
unfolding marked lookup insert
marked-insert-marked k [] h = ground arith
marked-insert-marked k ((j, used) ∷ rest) h = ground (arith, marked-insert-marked k rest)

added :
    (t u : VerificationKeyTable) (key buf : Bytes)
    → lookup_key key ≡ ok buf
    → add t key ≡ ok u
    → u ≡ record t { keys = insert buf false t.keys }
unfolding add
added t u key buf p h =
    sym
      (same_table (ap (λ o. o >>= λ b. ok (record t { keys = insert b false t.keys })) (sym p) ∙ h))
  where
    same_table : {x y : VerificationKeyTable} → ok x ≡ ok y → x ≡ y
    same_table e = cc

-- A key that is not marked, new or known, can be added at any time: the counter stays right, and the
-- key is in the table and not marked.
pub add-IsCounted :
    (t u : VerificationKeyTable) (key buf : Bytes)
    → lookup_key key ≡ ok buf
    → lookup buf t.keys ≢ some true
    → IsCounted t
    → add t key ≡ ok u
    → IsCounted u × (lookup buf u.keys ≡ some false)
add-IsCounted t u key buf p unmarked counted h =
    subst (λ v. IsCounted v × (lookup buf v.keys ≡ some false)) (sym (added t u key buf p h))
      (counted ∙ sym (marked-insert_new buf t.keys unmarked), lookup-insert_self buf false t.keys)

mark_key-unmarked :
    (t : VerificationKeyTable) (buf : Bytes)
    → lookup buf t.keys ≡ some false
    → mark_key t buf ≡ ok (record { keys = insert buf true t.keys; count = t.count + 1 })
unfolding mark_key
mark_key-unmarked t buf h = rw (mark_key, h)

-- Adding a key that has been used takes its mark away and leaves the counter: the counter is then one
-- higher than the number of marked keys, and the key can be used a second time.
pub add-get_and_mark :
    (t u v : VerificationKeyTable) (key : Bytes)
    → IsCounted t
    → get_and_mark t key ≡ ok u
    → add u key ≡ ok v
    → (v.count ≡ marked v.keys + 1) × ((w : VerificationKeyTable) × (get_and_mark v key ≡ ok w))
unfolding get_and_mark
add-get_and_mark t u v key counted h h' =
    let (buf, p, q) = >>=-eq-ok (lookup_key key) (mark_key t) h in
    let (found, e) = mark_key-eq-ok t u buf q in
    let (counted', _, _) = get_and_mark-IsCounted t u key counted h in
    let used = ap (λ x. lookup buf x.keys) e ∙ lookup-insert_self buf true t.keys in
    let a = added u v key buf p h' in
    let again = ap (λ x. lookup buf x.keys) a ∙ lookup-insert_self buf false u.keys in
    (
      ap (λ x. x.count) a
          ∙ (counted'
              ∙ (sym (marked-insert-marked buf u.keys used) ∙ ap (λ x. marked x.keys + 1) (sym a))),
      (
        record { keys = insert buf true v.keys; count = v.count + 1 },
        ap (λ o. o >>= mark_key v) p ∙ mark_key-unmarked v buf again,
      ),
    )
