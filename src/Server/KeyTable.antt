-- ===== src/Server/KeyTable.antt =====
-- server/processMessages/keyTable.go: the keys of the paths that are set up through a server. The two
-- tables hold pointers to the same records: `heap` has the records and the tables their places in it.
-- Curve points, key agreement and expanded keys are parameters.
pub mod Adding
pub mod Examples
use bmrng.Prelude.{
  ℕ, zero, suc, ◌+◌, Bool, true, false, if◌then◌else◌, Option, none, some, List, [], ◌∷◌, ◌++◌,
  length, get_elem?, set,
}
use bmrng.Prelude.Int.{ℤ}
use bmrng.Prelude.Assoc.{bytes_eq, lookup, insert, delete}
use bmrng.Prelude.Outcome.{Outcome, ok, err, bad_element, ◌>>=◌}
use bmrng.Prelude.Bytes.{Bytes}
use bmrng.Crypto.Keys.{lookup_key, copy_key}

pub record BootstrapKey (Expanded : Type 0) : Type 0 where
  pub prev_server : ℤ
  pub shared_key : Bytes
  pub verification_key : Bytes
  pub expanded_verification_key : Option Expanded
  pub next_server : ℤ
  pub outgoing_shared_key : Bytes
  pub outgoing_verification_key : Bytes
  pub expanded_outgoing_verification_key : Option Expanded
  pub used : Bool

pub record KeyLookupTable (Expanded : Type 0) : Type 0 where
  pub heap : List (BootstrapKey Expanded)
  pub table : List (Bytes × ℕ)
  pub reverse_table : List (Bytes × ℕ)

module _ {Expanded : Type 0} where
  -- `NewKeyLookupTable`.
  unfoldable pub new : KeyLookupTable Expanded
  new = record { heap = []; table = []; reverse_table = [] }

  -- `Lookup`: a pointer, or nil.
  unfoldable pub find_key : KeyLookupTable Expanded → Bytes → Bool → Option ℕ
  find_key t key reverse = if reverse then lookup key t.reverse_table else lookup key t.table

  unfoldable pub num_keys : KeyLookupTable Expanded → ℕ
  num_keys t = length t.table

  unfoldable pub revoke_key : KeyLookupTable Expanded → Bytes → Outcome (KeyLookupTable Expanded)
  revoke_key t key = lookup_key key >>= λ l. ok (record t { table = delete l t.table })

  -- `k.used = ...` through a pointer.
  unfoldable pub set_used : ℕ → Bool → List (BootstrapKey Expanded) → List (BootstrapKey Expanded)
  set_used i used [] = []
  set_used zero used (k ∷ heap) = record k { used = used } ∷ heap
  set_used (suc i) used (k ∷ heap) = k ∷ set_used i used heap

  unfoldable pub clear_used :
      List (Bytes × ℕ) → List (BootstrapKey Expanded) → List (BootstrapKey Expanded)
  unfolding set_used
  clear_used [] heap = heap
  clear_used ((l, i) ∷ rest) heap = clear_used rest (set_used i false heap)

  -- `ResetUsage`: the keys of the forward table.
  unfoldable pub reset_usage : KeyLookupTable Expanded → KeyLookupTable Expanded
  unfolding clear_used
  reset_usage t = record t { heap = clear_used t.table t.heap }

  module _ {Point : Type 0} (pre_expand_keys : Bool) (to_curve_point : Bytes → Option Point)
      (agree : Point → Bytes) (expand_key : Bytes → Outcome Expanded) where
    -- `PreExpandKeys`: the incoming key is expanded.
    unfoldable pub expand : Bytes → Outcome (Option Expanded)
    expand key = if pre_expand_keys then (expand_key key >>= λ e. ok (some e)) else ok none

    -- `AddKey`: the table, and the pointer to the new record.
    unfoldable pub add_key :
        KeyLookupTable Expanded
        → Bytes
        → Bytes
        → ℤ
        → ℤ
        → Bytes
        → Outcome (KeyLookupTable Expanded × ℕ)
    unfolding expand
    add_key t key shared_key prev next next_key = do
      l ← lookup_key key
      rl ← lookup_key next_key
      pt ← elim (to_curve_point next_key) [ none ↦ err bad_element | some pt ↦ ok pt ]
      verification_key ← copy_key key
      outgoing_verification_key ← copy_key next_key
      expanded ← expand verification_key
      ok (
        record {
          heap =
              t.heap
              ++ record {
                prev_server = prev;
                shared_key = shared_key;
                verification_key = verification_key;
                expanded_verification_key = expanded;
                next_server = next;
                outgoing_shared_key = agree pt;
                outgoing_verification_key = outgoing_verification_key;
                expanded_outgoing_verification_key = none;
                used = false;
              }
                ∷ [];
          table = insert l (length t.heap) t.table;
          reverse_table = insert rl (length t.heap) t.reverse_table;
        },
        length t.heap,
      )
