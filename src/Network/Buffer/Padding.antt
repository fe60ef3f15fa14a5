-- ===== src/Network/Buffer/Padding.antt =====
-- The messages of a link in network/buffers/inMemory.go once they are written, and the zeros that fill it.
use mathlib.Core.List.{Mem, mem-cons_self, mem-cons_of_mem}
use native.Mathlib.Nat.{add-zero}
use bmrng.Prelude.{
  ℕ, zero, suc, ◌+◌, ◌-◌, ◌*◌, ◌^◌, ◌≤◌, ◌<◌, ◌≡◌, refl, sym, ap, ap₂, leb, if◌then◌else◌, Bool,
  true, false, List, [], ◌∷◌, ◌++◌, map, length, get_or, flatten, replicate, length-append,
  length-replicate, get_or-append_left, get_or-append_right, get_or-replicate, arith, Bool-cases,
  ◌∙◌, inl, inr, lt→leb, leb→le,
}
use bmrng.Prelude.Bytes.{Bytes, make}
use bmrng.Config.Shuffler.{count_up}
use bmrng.Network.Buffer.{MemReadWriter}
use bmrng.Network.Buffer.Stream.{elem_of, elem_at, elems, elems_of, Fits}
use bmrng.Network.Buffer.Writes.{holding}

-- Every message has the link's message length.
abbrev pub Sized : ℕ → List Bytes → Type 0
Sized l [] = Unit
Sized l (b ∷ bs) = (length b ≡ l) × Sized l bs

pub Sized-get_or :
    (l : ℕ) (bs : List Bytes) (i : ℕ) → Sized l bs → i < length bs → length (get_or bs i []) ≡ l
Sized-get_or l [] i s h = elim h [ ]
Sized-get_or l (b ∷ bs) zero s h = s.0
Sized-get_or l (b ∷ bs) (suc i) s h = Sized-get_or l bs i s.1 (omega arith)

Sized-append : (l : ℕ) (xs ys : List Bytes) → Sized l xs → Sized l ys → Sized l (xs ++ ys)
Sized-append l [] ys s t = t
Sized-append l (x ∷ xs) ys s t = (s.0, Sized-append l xs ys s.1 t)

Sized-replicate : (l n : ℕ) (b : Bytes) → length b ≡ l → Sized l (replicate n b)
Sized-replicate l zero b e = tt
Sized-replicate l (suc n) b e = (e, Sized-replicate l n b e)

-- With dummies the link carries zeros for the messages that are missing.
pub padded : Bool → ℕ → ℕ → List Bytes → List Bytes
padded true l n bs = bs ++ replicate (n - length bs) (make l)
padded false l n bs = bs

-- The buffer after the writes and the shuffle.
abbrev pub shuffled : Bool → ℕ → ℕ → List Bytes → List ℕ → MemReadWriter
shuffled dummies l n bs pi = record (holding l n bs (n - length bs)) {
  num_elements = if dummies then n else length bs;
  permutation = pi;
}

pub Fits-of :
    (m : MemReadWriter) (is : List ℕ)
    → ((i : ℕ) → Mem i is → length (elem_at m i) ≡ m.element_length)
    → Fits m is
Fits-of m [] h = tt
Fits-of m (i ∷ is) h = (h i mem-cons_self, Fits-of m is (λ j k. h j (mem-cons_of_mem i k)))

pub Sized-Fits :
    (m : MemReadWriter) (is : List ℕ) → Fits m is → Sized m.element_length (map (elem_at m) is)
Sized-Fits m [] f = tt
Sized-Fits m (i ∷ is) f = (f.0, Sized-Fits m is f.1)

pub elems-flatten : (m : MemReadWriter) (is : List ℕ) → elems m is ≡ flatten (map (elem_at m) is)
unfolding elems_of
elems-flatten m [] = refl
elems-flatten m (i ∷ is) = ap (◌++◌ (elem_at m i)) (elems-flatten m is)

pub length-flatten : (l : ℕ) (bs : List Bytes) → Sized l bs → length (flatten bs) ≡ length bs * l
length-flatten l [] s = omega arith
length-flatten l (b ∷ bs) s =
    grind (arith, length-append b (flatten bs), length-flatten l bs s.1, s.0)

pub map-count_up :
    (f : ℕ → Bytes) (i : ℕ) (bs : List Bytes)
    → ((j : ℕ) → j < length bs → f (i + j) ≡ get_or bs j [])
    → map f (count_up i (length bs)) ≡ bs
unfolding count_up
map-count_up f i [] h = refl
map-count_up f i (b ∷ bs) h =
    ap₂ ◌∷◌ (rw (add-zero i) at (h 0 (omega arith)))
      (map-count_up f (i + 1) bs (λ j lt. ground (arith, h (suc j) (omega arith))))

-- The element at an index is the message or the padding at that index.
pub elem_at-padded :
    (dummies : Bool) (l n : ℕ) (bs : List Bytes) (pi : List ℕ) (j : ℕ)
    → j < length (padded dummies l n bs)
    → elem_at (shuffled dummies l n bs pi) j ≡ get_or (padded dummies l n bs) j []
unfolding elem_of padded
elem_at-padded false l n bs pi j h =
    rw (lt→leb (length bs) j h) (get_or-append_left bs (replicate (n - length bs) []) j [] h)
elem_at-padded true l n bs pi j h = elim (Bool-cases (leb (length bs) j)) [
  | inl dummy ↦
      let behind : j ≡ length bs + (j - length bs) = ground arith in
      let pads = replicate (n - length bs) (make l) in
      rw dummy (
        sym (
          ap (λ k. get_or (bs ++ pads) k []) behind
          ∙ (get_or-append_right bs pads (j - length bs) []
              ∙ get_or-replicate (n - length bs) (j - length bs) (make l) [] (
                  omega (
                    arith,
                    h,
                    length-append bs pads,
                    length-replicate (n - length bs) (make l),
                    leb→le (length bs) j dummy,
                  )))))
  | inr real ↦
      let within : j < length bs = ground arith in
      rw real (
        get_or-append_left bs (replicate (n - length bs) []) j [] within
        ∙ sym (get_or-append_left bs (replicate (n - length bs) (make l)) j [] within))
]

pub length-padded :
    (dummies : Bool) (l n : ℕ) (bs : List Bytes)
    → length bs ≤ n
    → length (padded dummies l n bs) ≡ (if dummies then n else length bs)
unfolding padded
length-padded false l n bs h = refl
length-padded true l n bs h = omega (
  arith,
  length-append bs (replicate (n - length bs) (make l)),
  length-replicate (n - length bs) (make l),
)

pub Sized-padded :
    (dummies : Bool) (l n : ℕ) (bs : List Bytes) → Sized l bs → Sized l (padded dummies l n bs)
unfolding padded
Sized-padded false l n bs s = s
Sized-padded true l n bs s =
    Sized-append l bs (replicate (n - length bs) (make l)) s
      (Sized-replicate l (n - length bs) (make l) (length-replicate l 0))

pub padded_dummies :
    (l n : ℕ) (bs : List Bytes) → padded true l n bs ≡ bs ++ replicate (n - length bs) (make l)
unfolding padded
padded_dummies l n bs = refl

pub padded_plain : (l n : ℕ) (bs : List Bytes) → padded false l n bs ≡ bs
unfolding padded
padded_plain l n bs = refl

pub padded-lt :
    (dummies : Bool) (l n : ℕ) (bs : List Bytes)
    → length bs ≤ n
    → n < 2 ^ 32
    → length (padded dummies l n bs) < 2 ^ 32
padded-lt true l n bs h k = omega (arith, length-padded true l n bs h)
padded-lt false l n bs h k = omega (arith, length-padded false l n bs h)
