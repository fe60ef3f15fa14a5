-- ===== src/Config/Shuffler/Seed.antt =====
-- What is drawn first from a shuffler of `NewPRGShuffler` (config/randomness.go).
use native.Mathlib.Nat.{add-zero, zero-add, add_assoc}
use bmrng.Prelude.{
  ℕ, ◌+◌, ◌<◌, ◌≡◌, refl, sym, ap, ap₂, ◌∙◌, Option, List, [], ◌∷◌, ◌++◌, map, length, take, drop,
  flatten, take-add, length-take, length-drop, drop-drop, arith,
}
use bmrng.Prelude.Outcome.{Outcome, ok, ◌>>=◌}
use bmrng.Prelude.Bytes.{Bytes, slice}
use bmrng.Config.Shuffler.{Shuffler, new_prg, read_bytes}

abbrev pub total : List ℕ → ℕ
total [] = 0
total (n ∷ ns) = n + total ns

module _ {S : Type 0} (read : S → ℕ → Option (Bytes × S)) where
  -- Draws of the given sizes, one after the other.
  unfoldable pub draws : Shuffler S → List ℕ → Outcome (List Bytes × Shuffler S)
  draws r [] = ok ([], r)
  draws r (n ∷ ns) = do (b, r') ← read_bytes read r n; (bs, r'') ← draws r' ns; ok (b ∷ bs, r'')

  -- A draw that leaves a byte in the buffer takes the next bytes of it.
  read_bytes-buffered :
      (r : Shuffler S) (n : ℕ)
      → r.pos + n < length r.buf
      → read_bytes read r n ≡ ok (take n (drop r.pos r.buf), record r { pos = r.pos + n })
  unfolding read_bytes slice
  read_bytes-buffered r n h = ground arith

  draws-buffered :
      (r : Shuffler S) (ns : List ℕ)
      → r.pos + total ns < length r.buf
      → (bs : List Bytes) × (draws r ns ≡ ok (bs, record r { pos = r.pos + total ns }))
        × (map length bs ≡ ns)
        × (flatten bs ≡ take (total ns) (drop r.pos r.buf))
  unfolding draws
  draws-buffered r [] h =
      ([], ap (λ p. ok ([], record r { pos = p })) (sym (add-zero r.pos)), refl, refl)
  draws-buffered r (n ∷ ns) h =
      let b = take n (drop r.pos r.buf) in
      let (bs, e, sizes, bytes) =
        draws-buffered (record r { pos = r.pos + n }) ns (omega (arith, h)) in
      (
        b ∷ bs,
        rw (read_bytes-buffered r n (omega (arith, h)), e)
            (ap (λ p. ok (b ∷ bs, record r { pos = p })) (add_assoc r.pos n (total ns))),
        ap₂ ◌∷◌ (omega (arith, length-take n (drop r.pos r.buf), length-drop r.pos r.buf, h)) sizes,
        ap (◌++◌ b) bytes
            ∙ (ap (λ l. b ++ take (total ns) l) (sym (drop-drop r.pos n r.buf))
                ∙ sym (take-add n (total ns) (drop r.pos r.buf))),
      )

-- The first numbers give the seed away. Whatever sizes are drawn from a new shuffler of
-- `NewPRGShuffler`, if they are fewer bytes than the seed in all, the draws succeed, are of those
-- sizes, and are the bytes of the seed one after the other, and the generator is not read.
pub new_prg-serves_seed :
    {S : Type 0} (read : S → ℕ → Option (Bytes × S)) (absorb : Bytes → S) (seed : Bytes)
    (ns : List ℕ)
    → total ns < length seed
    → (bs : List Bytes) × (draws read (new_prg absorb seed) ns
        ≡ ok (bs, record { src = absorb seed; buf = seed; pos = total ns }))
      × (map length bs ≡ ns)
      × (flatten bs ≡ take (total ns) seed)
unfolding new_prg
new_prg-serves_seed read absorb seed ns h =
    let (bs, e, sizes, bytes) = draws-buffered read (new_prg absorb seed) ns (omega (arith, h)) in
    (
      bs,
      e
          ∙ ap (λ p. ok (bs, record { src = absorb seed; buf = seed; pos = p }))
              (zero-add (total ns)),
      sizes,
      bytes,
    )
