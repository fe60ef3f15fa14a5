-- ===== src/Server/KeyTable/Examples.antt =====
-- One path in an empty table.
use bmrng.Prelude.{ℕ, ◌≡◌, ◌≢◌, refl, true, false, Option, none, some, [], ◌∷◌, length, get_elem?}
use bmrng.Prelude.Int.{pos}
use bmrng.Prelude.Outcome.{Outcome, ok}
use bmrng.Prelude.Bytes.{Bytes, make}
use bmrng.Server.KeyTable.{KeyLookupTable, BootstrapKey, find_key, expand, add_key}
use bmrng.Server.KeyTable.Adding.{add_key_lem}

abbrev empty : KeyLookupTable ℕ
empty = record { heap = []; table = []; reverse_table = [] }

abbrev point : Bytes → Option Bytes
point b = some b

abbrev agree : Bytes → Bytes
agree b = b

abbrev size : Bytes → Outcome ℕ
size b = ok (length b)

abbrev path : BootstrapKey ℕ
path = record {
  prev_server = pos 2;
  shared_key = make 32;
  verification_key = 9 ∷ make 31;
  expanded_verification_key = some 32;
  next_server = pos 3;
  outgoing_shared_key = 8 ∷ make 31;
  outgoing_verification_key = 8 ∷ make 31;
  expanded_outgoing_verification_key = none;
  used = false;
}

expands : expand true point agree size (9 ∷ make 31) ≡ ok (some 32)
unfolding expand
expands = refl

add_key_lem_example :
    (u : KeyLookupTable ℕ) × (add_key true point agree size empty
        (9 ∷ make 31)
        (make 32)
        (pos 2)
        (pos 3)
        (8 ∷ make 31)
      ≡ ok (u, 0))
    × (find_key u (9 ∷ make 31) false ≡ some 0)
    × (find_key u (8 ∷ make 31) true ≡ some 0)
    × (get_elem? u.heap 0 ≡ some path)
    × ((other : Bytes) → 9 ∷ make 31 ≢ other → find_key u other false ≡ find_key empty other false)
add_key_lem_example =
    add_key_lem true point agree size empty (9 ∷ make 31) (make 32) (pos 2) (pos 3) (8 ∷ make 31)
      (8 ∷ make 31) (some 32) refl refl refl expands
