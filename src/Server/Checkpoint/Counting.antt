-- ===== src/Server/Checkpoint/Counting.antt =====
-- The count of marked keys.
use bmrng.Prelude.{
  ℕ, suc, ◌+◌, ◌≤◌, ◌≡◌, refl, ap, sym, subst, Bool, true, false, if◌then◌else◌, Option, none, some,
  List, [], ◌∷◌, length, arith,
}
use bmrng.Prelude.Assoc.{bytes_eq, lookup, insert}
use bmrng.Prelude.Outcome.{ok, err, key_not_found, duplicate, >>=-eq-ok}
use bmrng.Prelude.Bytes.{Bytes}
use bmrng.Crypto.Keys.{lookup_key}
use bmrng.Server.Checkpoint.{VerificationKeyTable, mark_key, get_and_mark, unmark}

-- How many keys are marked.
unfoldable pub marked : List (Bytes × Bool) → ℕ
marked [] = 0
marked ((k, used) ∷ rest) = (if used then 1 else 0) + marked rest

pub marked-le-length : (m : List (Bytes × Bool)) → marked m ≤ length m
unfolding marked
marked-le-length [] = omega arith
marked-le-length ((k, true) ∷ rest) = omega (arith, marked-le-length rest)
marked-le-length ((k, false) ∷ rest) = omega (arith, marked-le-length rest)

marked-insert :
    (k : Bytes) (m : List (Bytes × Bool))
    → lookup k m ≡ some false
    → marked (insert k true m) ≡ marked m + 1
unfolding marked lookup insert
marked-insert k [] h = ground arith
marked-insert k ((j, used) ∷ rest) h = ground (arith, marked-insert k rest)

length-insert_known :
    (k : Bytes) (v w : Bool) (m : List (Bytes × Bool))
    → lookup k m ≡ some v
    → length (insert k w m) ≡ length m
unfolding lookup insert
length-insert_known k v w [] h = ground arith
length-insert_known k v w ((j, used) ∷ rest) h = ground (arith, length-insert_known k v w rest)

pub marked-unmark : (m : List (Bytes × Bool)) → marked (unmark m) ≡ 0
unfolding marked unmark
marked-unmark [] = refl
marked-unmark ((k, used) ∷ rest) = omega (arith, marked-unmark rest)

-- The counter counts the marked keys.
abbrev pub IsCounted : VerificationKeyTable → Type 0
IsCounted t = t.count ≡ marked t.keys

-- A key that is marked was in the table, and was not marked.
pub mark_key-eq-ok :
    (t u : VerificationKeyTable) (buf : Bytes)
    → mark_key t buf ≡ ok u
    → (lookup buf t.keys ≡ some false)
      × (u ≡ record { keys = insert buf true t.keys; count = t.count + 1 })
unfolding mark_key
mark_key-eq-ok t u buf h = by_lookup (lookup buf t.keys) h
  where
    by_lookup :
        (o : Option Bool)
        → (elim o [
          | none ↦ err key_not_found
          | some true ↦ err duplicate
          | some false ↦ ok (record { keys = insert buf true t.keys; count = t.count + 1 })
        ])
          ≡ ok u
        → (o ≡ some false) × (u ≡ record { keys = insert buf true t.keys; count = t.count + 1 })
    by_lookup none h = cc
    by_lookup (some true) h = cc
    by_lookup (some false) h = (refl, cc)

pub get_and_mark-IsCounted :
    (t u : VerificationKeyTable) (key : Bytes)
    → IsCounted t
    → get_and_mark t key ≡ ok u
    → IsCounted u × (u.count ≡ t.count + 1) × (length u.keys ≡ length t.keys)
unfolding get_and_mark
get_and_mark-IsCounted t u key counted h =
    let (buf, p, q) = >>=-eq-ok (lookup_key key) (mark_key t) h in
    let (found, e) = mark_key-eq-ok t u buf q in
    subst (λ v. IsCounted v × (v.count ≡ t.count + 1) × (length v.keys ≡ length t.keys)) (sym e)
      (
        omega (arith, marked-insert buf t.keys found, counted),
        refl,
        length-insert_known buf false true t.keys found,
      )

pub length-unmark : (m : List (Bytes × Bool)) → length (unmark m) ≡ length m
unfolding unmark
length-unmark [] = refl
length-unmark ((k, used) ∷ rest) = ap suc (length-unmark rest)
