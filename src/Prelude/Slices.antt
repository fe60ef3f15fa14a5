-- ===== src/Prelude/Slices.antt =====
-- Where `take` and `drop` meet `++`: the laws of a packed buffer's parts.
use Prim.Native.Nat.{ℕ, zero, suc, ◌+◌, ◌≤◌}
use mathlib.Core.Path.{◌≡◌, refl, sym, ap}
use native.Mathlib.Nat.{zero-add, suc-add, add_assoc}
use mathlib.Core.List.{List, [], ◌∷◌, ◌++◌, append_assoc}
use native.Mathlib.Omega.{arith}
use bmrng.Prelude.Lists.{length, take, drop, length-append, length-take, length-drop}

module _ {ℓ} {A : Type ℓ} where
  pub take-append : (xs ys : List A) → take (length xs) (xs ++ ys) ≡ xs
  take-append [] ys = refl
  take-append (x ∷ xs) ys = rw (take-append xs ys)

  pub drop-append : (xs ys : List A) → drop (length xs) (xs ++ ys) ≡ ys
  drop-append [] ys = refl
  drop-append (x ∷ xs) ys = drop-append xs ys

  -- At a length that is known by an equation.
  pub take-append_at : (n : ℕ) (xs ys : List A) → length xs ≡ n → take n (xs ++ ys) ≡ xs
  take-append_at n xs ys e = rw (← e) (take-append xs ys)

  pub drop-append_at : (n : ℕ) (xs ys : List A) → length xs ≡ n → drop n (xs ++ ys) ≡ ys
  drop-append_at n xs ys e = rw (← e) (drop-append xs ys)

  pub take_all : (n : ℕ) (xs : List A) → length xs ≤ n → take n xs ≡ xs
  take_all zero [] h = refl
  take_all zero (x ∷ xs) h = elim h [ ]
  take_all (suc n) [] h = refl
  take_all (suc n) (x ∷ xs) h = ap (◌∷◌ x) (take_all n xs (omega arith))

  pub drop_all : (n : ℕ) (xs : List A) → length xs ≤ n → drop n xs ≡ []
  drop_all zero [] h = refl
  drop_all zero (x ∷ xs) h = elim h [ ]
  drop_all (suc n) [] h = refl
  drop_all (suc n) (x ∷ xs) h = drop_all n xs (omega arith)

  pub drop-drop : (n m : ℕ) (xs : List A) → drop m (drop n xs) ≡ drop (n + m) xs
  drop-drop zero m xs = rw zero-add
  drop-drop (suc n) m [] = rw (suc-add n m) (drop_all m [] (omega arith))
  drop-drop (suc n) m (x ∷ xs) = rw (suc-add n m) (drop-drop n m xs)

  -- `b` with `out` written over it at `w`.
  abbrev pub fill : List A → ℕ → List A → List A
  fill b w out = take w b ++ (out ++ drop (w + length out) b)

  pub length-fill :
      (b : List A) (w : ℕ) (out : List A)
      → w + length out ≤ length b
      → length (fill b w out) ≡ length b
  length-fill b w out h = omega (
    arith,
    length-append (take w b) (out ++ drop (w + length out) b),
    length-append out (drop (w + length out) b),
    length-take w b,
    length-drop (w + length out) b,
  )

  take-fill :
      (b : List A) (w : ℕ) (out : List A)
      → w + length out ≤ length b
      → take (w + length out) (fill b w out) ≡ take w b ++ out
  take-fill b w out h = rw (← append_assoc (take w b) out (drop (w + length out) b)) (
      take-append_at (w + length out) (take w b ++ out) (drop (w + length out) b)
        (omega (arith, length-append (take w b) out, length-take w b)))

  drop-fill :
      (b : List A) (w : ℕ) (out : List A)
      → w + length out ≤ length b
      → drop (w + length out) (fill b w out) ≡ drop (w + length out) b
  drop-fill b w out h = rw (← append_assoc (take w b) out (drop (w + length out) b)) (
      drop-append_at (w + length out) (take w b ++ out) (drop (w + length out) b)
        (omega (arith, length-append (take w b) out, length-take w b)))

  -- Two writes one behind the other are one write.
  pub fill-fill :
      (b : List A) (w : ℕ) (out more : List A)
      → w + length out ≤ length b
      → fill (fill b w out) (w + length out) more ≡ fill b w (out ++ more)
  fill-fill b w out more h = rw (
    take-fill b w out h,
    ← drop-drop (w + length out) (length more) (fill b w out),
    drop-fill b w out h,
    drop-drop (w + length out) (length more) b,
    append_assoc (take w b) out (more ++ drop (w + length out + length more) b),
    append_assoc out more (drop (w + length (out ++ more)) b),
    length-append out more,
    add_assoc w (length out) (length more),
  )

  -- Where the count was cut to the length.
  pub take-length-take : (n : ℕ) (xs : List A) → take (length (take n xs)) xs ≡ take n xs
  take-length-take zero xs = refl
  take-length-take (suc n) [] = refl
  take-length-take (suc n) (x ∷ xs) = ap (◌∷◌ x) (take-length-take n xs)

  pub take-add : (m n : ℕ) (xs : List A) → take (m + n) xs ≡ take m xs ++ take n (drop m xs)
  take-add zero n xs = rw zero-add
  take-add (suc m) n [] = rw (suc-add m n) (sym (take_all n [] (omega arith)))
  take-add (suc m) n (x ∷ xs) = rw (suc-add m n) (ap (◌∷◌ x) (take-add m n xs))

  pub take-append-drop_taken :
      (n : ℕ) (xs : List A) → take n xs ++ drop (length (take n xs)) xs ≡ xs
  take-append-drop_taken zero xs = refl
  take-append-drop_taken (suc n) [] = refl
  take-append-drop_taken (suc n) (x ∷ xs) = ap (◌∷◌ x) (take-append-drop_taken n xs)
