-- ===== src/Server/KeyTable/Adding.antt =====
-- A new path in the key table.
use bmrng.Prelude.{
  ℕ, ◌≡◌, ◌≢◌, refl, sym, ap, ◌∙◌, Bool, true, false, if◌then◌else◌, Option, none, some, List, [],
  ◌∷◌, ◌++◌, length, get_elem?, Bool-cases, inl, inr, arith,
}
use bmrng.Prelude.Int.{ℤ}
use bmrng.Prelude.Assoc.{
  bytes_eq, bytes_beq, bytes_beq_iff, lookup, insert, lookup-insert, lookup-insert_self,
}
use bmrng.Prelude.Outcome.{Outcome, ok}
use bmrng.Prelude.Bytes.{Bytes, make}
use bmrng.Prelude.Pack.{copy_last}
use bmrng.Crypto.Keys.{key_size, lookup_key, copy_key}
use bmrng.Server.KeyTable.{KeyLookupTable, find_key, expand, add_key}

-- A key of the right size is copied whole.
lookup_key_whole : (key : Bytes) → length key ≡ key_size → lookup_key key ≡ ok key
unfolding lookup_key
lookup_key_whole key l = copy_last [] (make key_size) key 0 key_size refl (sym l) (omega arith)

copy_key_whole : (key : Bytes) → length key ≡ key_size → copy_key key ≡ ok key
unfolding copy_key
copy_key_whole key l = copy_last [] (make key_size) key 0 key_size refl (sym l) (omega arith)

get_elem?-append_last :
    {A : Type 0} (xs : List A) (a : A) → get_elem? (xs ++ a ∷ []) (length xs) ≡ some a
get_elem?-append_last [] a = refl
get_elem?-append_last (x ∷ xs) a = get_elem?-append_last xs a

module _ {Expanded Point : Type 0} (pre_expand_keys : Bool) (to_curve_point : Bytes → Option Point)
    (agree : Point → Bytes) (expand_key : Bytes → Outcome Expanded) where
  -- A path is found from both its ends. If the next key is a point of the curve and the key expands,
  -- `AddKey` returns a table in which the incoming key, and in reverse the outgoing key, lead to one
  -- new record, which is not used and has the two keys, the servers before and after, and the shared
  -- keys; what the other incoming keys lead to is as it was.
  pub add_key_lem :
      (t : KeyLookupTable Expanded) (key shared_key : Bytes) (prev next : ℤ) (next_key : Bytes)
      (pt : Point) (e : Option Expanded)
      → length key ≡ key_size
      → length next_key ≡ key_size
      → to_curve_point next_key ≡ some pt
      → expand pre_expand_keys to_curve_point agree expand_key key ≡ ok e
      → (u : KeyLookupTable Expanded) × (add_key pre_expand_keys to_curve_point agree expand_key t
            key shared_key prev next next_key
          ≡ ok (u, length t.heap))
        × (find_key u key false ≡ some (length t.heap))
        × (find_key u next_key true ≡ some (length t.heap))
        × (get_elem? u.heap (length t.heap)
            ≡ some (record {
              prev_server = prev;
              shared_key = shared_key;
              verification_key = key;
              expanded_verification_key = e;
              next_server = next;
              outgoing_shared_key = agree pt;
              outgoing_verification_key = next_key;
              expanded_outgoing_verification_key = none;
              used = false;
            }))
        × ((other : Bytes) → key ≢ other → find_key u other false ≡ find_key t other false)
  unfolding add_key find_key
  add_key_lem t key shared_key prev next next_key pt e lk ln point expanded = (
    _,
    rw (
      lookup_key_whole key lk,
      lookup_key_whole next_key ln,
      point,
      copy_key_whole key lk,
      copy_key_whole next_key ln,
      expanded,
    ),
    lookup-insert_self key (length t.heap) t.table,
    lookup-insert_self next_key (length t.heap) t.reverse_table,
    get_elem?-append_last t.heap _,
    λ other apart. others key other (length t.heap) t.table apart,
  )
    where
      others :
          (key other : Bytes) (i : ℕ) (m : List (Bytes × ℕ))
          → key ≢ other
          → lookup other (insert key i m) ≡ lookup other m
      others key other i m apart = elim (Bool-cases (bytes_beq key other)) [
        | inl same ↦ absurd (apart ((bytes_beq_iff key other).0 same))
        | inr differ ↦
            lookup-insert key other i m ∙ ap (λ b. if b then some i else lookup other m) differ
      ]
