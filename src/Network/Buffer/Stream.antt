-- ===== src/Network/Buffer/Stream.antt =====
-- What a shuffled buffer still has to say: the rest of the element being read, and then the
-- elements that the rest of the permutation names.
use mathlib.Core.Logic.Or
use native.Mathlib.Numerals.{add-one}
use mathlib.Core.List.{Mem, Nodup, Nodup-cons, mem-cons, append-nil}
use bmrng.Prelude.{
  ℕ, zero, suc, ◌+◌, ◌≤◌, ◌<◌, ◌≡◌, ◌≢◌, refl, ap, leb, if◌then◌else◌, inl, inr, some, List, [],
  ◌∷◌, ◌++◌, length, get_elem?, get_or, set, drop, length-set, take_all, drop_all, arith,
  Bool-cases,
}
use bmrng.Prelude.Outcome.{ok}
use bmrng.Prelude.Bytes.{Bytes}
use bmrng.Network.Buffer.{MemReadWriter, read_element, overwrite}

-- The element that an index of the permutation stands for.
unfoldable pub elem_of : ℕ → Bytes → List Bytes → ℕ → Bytes
elem_of count zeros messages i = if leb count i then zeros else get_or messages i []

unfoldable pub elems_of : ℕ → Bytes → List Bytes → List ℕ → Bytes
elems_of count zeros messages [] = []
elems_of count zeros messages (i ∷ is) =
    elem_of count zeros messages i ++ elems_of count zeros messages is

abbrev pub elem_at : MemReadWriter → ℕ → Bytes
elem_at m = elem_of m.element_count m.zeros m.messages

abbrev pub elems : MemReadWriter → List ℕ → Bytes
elems m = elems_of m.element_count m.zeros m.messages

abbrev pub stream : MemReadWriter → List ℕ → Bytes
stream m rest = drop m.offset m.element ++ elems m rest

abbrev pub Fits : MemReadWriter → List ℕ → Type 0
Fits m [] = Unit
Fits m (i ∷ is) = (length (elem_at m i) ≡ m.element_length) × Fits m is

-- `rest` is what the buffer has left to read, and every element has the buffer's length.
pub record Ready (m : MemReadWriter) (rest : List ℕ) : Type 0 where
  pub at : drop m.position m.permutation ≡ rest
  pub total : m.position + length rest ≡ m.num_elements
  pub distinct : Nodup rest
  pub counted : m.element_count ≤ length m.messages
  pub fits : Fits m rest
  pub element_sized : length m.element ≡ m.element_length
  pub offset_within : m.offset ≤ m.element_length

-- The buffer after the element `i` has been read.
unfoldable pub consume : MemReadWriter → ℕ → MemReadWriter
consume m i = record m {
  position = m.position + 1;
  messages = if leb m.element_count i then m.messages else set m.messages i [];
}

pub consume_same :
    (m : MemReadWriter) (i : ℕ)
    → ((consume m i).element_count ≡ m.element_count)
      × ((consume m i).element ≡ m.element)
      × ((consume m i).offset ≡ m.offset)
      × ((consume m i).element_length ≡ m.element_length)
      × (length (consume m i).messages ≡ length m.messages)
unfolding consume
consume_same m i = (refl, refl, refl, refl, ground (arith, length-set m.messages i []))

get_or-set_ne : (xs : List Bytes) (i j : ℕ) → i ≢ j → get_or (set xs i []) j [] ≡ get_or xs j []
get_or-set_ne [] i j h = refl
get_or-set_ne (x ∷ xs) zero zero h = absurd (h refl)
get_or-set_ne (x ∷ xs) zero (suc j) h = refl
get_or-set_ne (x ∷ xs) (suc i) zero h = refl
get_or-set_ne (x ∷ xs) (suc i) (suc j) h = get_or-set_ne xs i j (λ e. h (ap suc e))

elem_at-consume : (m : MemReadWriter) (i j : ℕ) → i ≢ j → elem_at (consume m i) j ≡ elem_at m j
unfolding elem_of consume
elem_at-consume m i j h = ground (arith, get_or-set_ne m.messages i j h)

not-mem_tail : {i j : ℕ} {is : List ℕ} → ¬ Mem i (j ∷ is) → (i ≢ j) × (¬ Mem i is)
not-mem_tail {i} {j} {is} h = (λ e. h (mem-cons.1 (Or.inl e)), λ m. h (mem-cons.1 (Or.inr m)))

pub elems-consume :
    (m : MemReadWriter) (i : ℕ) (is : List ℕ) → ¬ Mem i is → elems (consume m i) is ≡ elems m is
unfolding elems_of
elems-consume m i [] h = refl
elems-consume m i (j ∷ is) h =
    let (ne, out) = not-mem_tail h in rw (elem_at-consume m i j ne, elems-consume m i is out)

pub Fits-consume :
    (m : MemReadWriter) (i : ℕ) (is : List ℕ) → ¬ Mem i is → Fits m is → Fits (consume m i) is
Fits-consume m i [] h f = tt
Fits-consume m i (j ∷ is) h f =
    let (ne, out) = not-mem_tail h in
    (rw (elem_at-consume m i j ne) (unfold consume in f.0), Fits-consume m i is out f.1)

drop-cons :
    (n : ℕ) (xs : List ℕ) {x : ℕ} {rest : List ℕ}
    → drop n xs ≡ x ∷ rest
    → (get_elem? xs n ≡ some x) × (drop (suc n) xs ≡ rest)
drop-cons zero [] h = absurd (cc)
drop-cons zero (y ∷ xs) h = (ground arith, ground arith)
drop-cons (suc n) [] h = absurd (cc)
drop-cons (suc n) (y ∷ xs) h = drop-cons n xs h

get_or-some : (xs : List Bytes) (i : ℕ) → i < length xs → get_elem? xs i ≡ some (get_or xs i [])
get_or-some [] i h = elim h [ ]
get_or-some (x ∷ xs) zero h = refl
get_or-some (x ∷ xs) (suc i) h = get_or-some xs i (omega arith)

overwrite_whole : (b src : Bytes) → length b ≡ length src → overwrite b src ≡ src
overwrite_whole b src e =
    rw (take_all (length b) src (omega arith), drop_all (length src) b (omega arith), append-nil)

-- Reading the next element fills a buffer of the element's length with it.
pub read_element_lem :
    (m : MemReadWriter) (i : ℕ) (rest : List ℕ) (b : Bytes)
    → Ready m (i ∷ rest)
    → length b ≡ m.element_length
    → read_element m b ≡ ok (consume m i, elem_at m i)
unfolding read_element elem_of consume
read_element_lem m i rest b v e =
    let (next, _) = drop-cons m.position m.permutation v.at in
    elim (Bool-cases (leb m.element_count i)) [
      | inl dummy ↦ ground (arith, overwrite_whole b m.zeros)
      | inr real ↦
          ground (arith, get_or-some m.messages i, overwrite_whole b (get_or m.messages i []))
    ]

pub consume-Ready :
    (m : MemReadWriter) (i : ℕ) (rest : List ℕ) → Ready m (i ∷ rest) → Ready (consume m i) rest
unfolding consume
consume-Ready m i rest v =
    let (fresh, others) = Nodup-cons.0 v.distinct in
    let (_, later) = drop-cons m.position m.permutation v.at in
    record {
      at = rw (add-one m.position) later;
      total = omega (arith, v.total);
      distinct = others;
      counted = omega (arith, v.counted, consume_same m i);
      fits = Fits-consume m i rest fresh v.fits.1;
      element_sized = v.element_sized;
      offset_within = v.offset_within;
    }
