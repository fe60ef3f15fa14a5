-- ===== src/Server/Onion/Usage.antt =====
-- The marks on the records of the key table.
use bmrng.Prelude.{
  ℕ, zero, suc, ◌+◌, ◌≡◌, refl, sym, ap, ◌∙◌, Bool, true, false, if◌then◌else◌, none, some, List,
  [], ◌∷◌, get_elem?, arith,
}
use bmrng.Server.KeyTable.{BootstrapKey, set_used}

module _ {Expanded : Type 0} where
  -- How many records are used.
  unfoldable pub used_keys : List (BootstrapKey Expanded) → ℕ
  used_keys [] = 0
  used_keys (k ∷ heap) = (if k.used then 1 else 0) + used_keys heap

  no_record : {k : BootstrapKey Expanded} → none ≡ some k → ⊥
  no_record e = cc

  pub same_record : {j k : BootstrapKey Expanded} → some j ≡ some k → j ≡ k
  same_record e = cc

  pub used_keys-set_used :
      (i : ℕ) (heap : List (BootstrapKey Expanded)) (k : BootstrapKey Expanded)
      → get_elem? heap i ≡ some k
      → k.used ≡ false
      → used_keys (set_used i true heap) ≡ used_keys heap + 1
  unfolding used_keys set_used
  used_keys-set_used i [] k h fresh = absurd (no_record h)
  used_keys-set_used zero (k' ∷ heap) k h fresh =
      rw (ap (λ x. x.used) (same_record h) ∙ fresh) (omega arith)
  used_keys-set_used (suc i) (k' ∷ heap) k h fresh =
      omega (arith, used_keys-set_used i heap k h fresh)

  -- The record at a place is used.
  unfoldable pub Spent : List (BootstrapKey Expanded) → ℕ → Type 0
  Spent heap i = (k : BootstrapKey Expanded) × (get_elem? heap i ≡ some k) × (k.used ≡ true)

  pub Spent-set_used :
      (i j : ℕ) (heap : List (BootstrapKey Expanded))
      → Spent heap j
      → Spent (set_used i true heap) j
  unfolding Spent set_used
  Spent-set_used i j [] h = h
  Spent-set_used zero zero (k ∷ heap) h = (record k { used = true }, refl, refl)
  Spent-set_used zero (suc j) (k ∷ heap) h = h
  Spent-set_used (suc i) zero (k ∷ heap) h = h
  Spent-set_used (suc i) (suc j) (k ∷ heap) h = Spent-set_used i j heap h

  pub set_used-Spent :
      (i : ℕ) (heap : List (BootstrapKey Expanded)) (k : BootstrapKey Expanded)
      → get_elem? heap i ≡ some k
      → Spent (set_used i true heap) i
  unfolding Spent set_used
  set_used-Spent i [] k h = absurd (no_record h)
  set_used-Spent zero (k' ∷ heap) k h = (record k' { used = true }, refl, refl)
  set_used-Spent (suc i) (k' ∷ heap) k h = set_used-Spent i heap k h

  -- No record is both used and not used.
  pub Spent-fresh :
      (heap : List (BootstrapKey Expanded)) (i : ℕ) (k : BootstrapKey Expanded)
      → Spent heap i
      → get_elem? heap i ≡ some k
      → k.used ≡ false
      → ⊥
  unfolding Spent
  Spent-fresh heap i k (k', found', spent) found fresh =
      both (ap (λ x. x.used) (same_record (sym found' ∙ found))) spent fresh
    where
      both : {b c : Bool} → b ≡ c → b ≡ true → c ≡ false → ⊥
      both e p q = cc
