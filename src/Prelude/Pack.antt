-- ===== src/Prelude/Pack.antt =====
-- Packing field behind field into a buffer, and reading the fields back.
use Prim.Native.Nat.{ℕ, zero, suc, ◌+◌, ◌-◌, ◌≤◌, ◌<◌, ◌^◌, min}
use mathlib.Core.Path.{◌≡◌, sym, ap, ◌∙◌}
use mathlib.Core.List.{[], ◌++◌, append-nil, append_assoc}
use native.Mathlib.Omega.{arith}
use native.Mathlib.Nat.{zero-add, suc-add}
use bmrng.Prelude.Tests.{le→leb}
use bmrng.Prelude.Lists.{length, take, length-append}
use bmrng.Prelude.Slices.{
  take-append_at, drop-append_at, take_all, drop_all, fill, length-fill, fill-fill,
}
use bmrng.Prelude.Outcome.{Outcome, ok, ◌>>=◌}
use bmrng.Prelude.Bytes.{
  Bytes, make, slice, copy_at, le_bytes, le_value, length-le_bytes, le_value-le_bytes,
}

-- `b[lo:hi]`, where `b` is laid out as three parts.
pub slice_part :
    (pre x post : Bytes) (lo hi : ℕ)
    → length pre ≡ lo
    → lo + length x ≡ hi
    → slice (pre ++ (x ++ post)) lo hi ≡ ok x
unfolding slice
slice_part pre x post lo hi p q =
    let whole = length-append pre (x ++ post) in
    let tail = length-append x post in
    rw (
      le→leb lo hi (omega arith),
      le→leb hi (length (pre ++ (x ++ post))) (omega arith),
      drop-append_at lo pre (x ++ post) p,
      take-append_at (hi - lo) x post (omega arith),
    )

-- `b[lo:]`.
pub slice_tail :
    (pre x : Bytes) (lo hi : ℕ)
    → length pre ≡ lo
    → hi ≡ length (pre ++ x)
    → slice (pre ++ x) lo hi ≡ ok x
unfolding slice
slice_tail pre x lo hi p q =
    let whole = length-append pre x in
    rw (
      q,
      le→leb lo (length (pre ++ x)) (omega arith),
      le→leb (length (pre ++ x)) (length (pre ++ x)) (omega arith),
      drop-append_at lo pre x p,
      take_all (length (pre ++ x) - lo) x (omega arith),
    )

-- `b[:hi]`.
pub slice_front : (b : Bytes) (hi : ℕ) → hi ≤ length b → slice b 0 hi ≡ ok (take hi b)
unfolding slice
slice_front b hi h =
    rw (le→leb 0 hi (omega arith), le→leb hi (length b) h) (ap (λ n. ok (take n b)) (omega arith))

-- Zeros in two blocks, and in three.
pub make-append : (m n : ℕ) → make (m + n) ≡ make m ++ make n
make-append zero n = rw zero-add
make-append (suc m) n = rw (suc-add m n, make-append m n)

pub make_three : (h n s : ℕ) → make (n + h + s) ≡ make h ++ (make n ++ make s)
make_three h n s =
    ap make (omega arith) ∙ (make-append h (n + s) ∙ ap (◌++◌ (make h)) (make-append n s))

-- A field that has its window's length is copied whole.
pub copy_at-fill :
    (b : Bytes) (lo hi : ℕ) (src : Bytes)
    → hi ≤ length b
    → lo + length src ≡ hi
    → copy_at b lo hi src ≡ ok (fill b lo src)
unfolding copy_at
copy_at-fill b lo hi src h e = rw (
  le→leb lo hi (omega arith),
  le→leb hi (length b) h,
  take_all (hi - lo) src (omega arith),
  omega-min lo hi (length src) e,
)
  where
    omega-min : (lo hi n : ℕ) → lo + n ≡ hi → min (hi - lo) n ≡ n
    omega-min lo hi n e = omega arith

-- One field behind the fields that are packed already, where there is room for more.
pub copy_at-within :
    (b out : Bytes) (lo hi : ℕ) (src : Bytes)
    → length out ≡ lo
    → lo + length src ≤ hi
    → hi ≤ length b
    → copy_at (fill b 0 out) lo hi src ≡ ok (fill b 0 (out ++ src))
unfolding copy_at
copy_at-within b out lo hi src p q r =
    let size = length-fill b 0 out (omega arith) in
    rw
      (
        le→leb lo hi (omega arith),
        le→leb hi (length (fill b 0 out)) (omega arith),
        take_all (hi - lo) src (omega arith),
        omega-min lo hi (length src) q,
      )
      (ap ok (rw (omega-zero lo (length out) p) (fill-fill b 0 out src (omega arith))))
  where
    omega-min : (lo hi n : ℕ) → lo + n ≤ hi → min (hi - lo) n ≡ n
    omega-min lo hi n e = omega arith

    omega-zero : (lo n : ℕ) → n ≡ lo → lo ≡ 0 + n
    omega-zero lo n e = omega arith

-- One field behind the fields that are packed already.
pub copy_at-next :
    (b out : Bytes) (lo hi : ℕ) (src : Bytes)
    → length out ≡ lo
    → lo + length src ≡ hi
    → hi ≤ length b
    → copy_at (fill b 0 out) lo hi src ≡ ok (fill b 0 (out ++ src))
copy_at-next b out lo hi src p q r = copy_at-within b out lo hi src p (omega arith) r

-- A buffer of exactly the packed length is what was packed.
pub fill_whole : (b out : Bytes) → length b ≡ length out → fill b 0 out ≡ out
fill_whole b out e = rw (drop_all (0 + length out) b (omega arith), append-nil out)

-- Writing over the middle of a buffer that is laid out as three parts, or over its end.
pub fill_part :
    (pre x y post : Bytes) (lo : ℕ)
    → length pre ≡ lo
    → length x ≡ length y
    → fill (pre ++ (x ++ post)) lo y ≡ pre ++ (y ++ post)
fill_part pre x y post lo p q = rw (
  take-append_at lo pre (x ++ post) p,
  ← append_assoc pre x post,
  drop-append_at (lo + length y) (pre ++ x) post (omega (arith, length-append pre x)),
)

pub copy_part :
    (pre x y post : Bytes) (lo hi : ℕ)
    → length pre ≡ lo
    → length x ≡ length y
    → lo + length y ≡ hi
    → copy_at (pre ++ (x ++ post)) lo hi y ≡ ok (pre ++ (y ++ post))
copy_part pre x y post lo hi p q r =
    copy_at-fill (pre ++ (x ++ post)) lo hi y
      (omega (arith, length-append pre (x ++ post), length-append x post)) r
    ∙ ap ok (fill_part pre x y post lo p q)

pub copy_last :
    (pre x y : Bytes) (lo hi : ℕ)
    → length pre ≡ lo
    → length x ≡ length y
    → lo + length y ≡ hi
    → copy_at (pre ++ x) lo hi y ≡ ok (pre ++ y)
copy_last pre x y lo hi p q r =
    ap (λ t. copy_at (pre ++ t) lo hi y) (sym (append-nil x))
    ∙ (copy_part pre x y [] lo hi p q r ∙ ap (λ t. ok (pre ++ t)) (append-nil y))

-- `binary.LittleEndian.PutUint32(b[lo:lo+4], v)` and its kin, at a width of `n` bytes.
unfoldable pub put_le : ℕ → Bytes → ℕ → ℕ → Outcome Bytes
put_le n b lo v = copy_at b lo (lo + n) (le_bytes n v)

-- `binary.LittleEndian.Uint32(b[lo:lo+4])` and its kin.
unfoldable pub get_le : ℕ → Bytes → ℕ → Outcome ℕ
get_le n b lo = slice b lo (lo + n) >>= λ x. ok (le_value x)

pub put_le-next :
    (n : ℕ) (b out : Bytes) (lo v : ℕ)
    → length out ≡ lo
    → lo + n ≤ length b
    → put_le n (fill b 0 out) lo v ≡ ok (fill b 0 (out ++ le_bytes n v))
unfolding put_le
put_le-next n b out lo v p r =
    copy_at-next b out lo (lo + n) (le_bytes n v) p (omega (arith, length-le_bytes n v)) r

pub get_le-part :
    (n : ℕ) (pre post : Bytes) (lo v : ℕ)
    → length pre ≡ lo
    → v < 256 ^ n
    → get_le n (pre ++ (le_bytes n v ++ post)) lo ≡ ok v
unfolding get_le
get_le-part n pre post lo v p h = rw (
  slice_part pre (le_bytes n v) post lo (lo + n) p (omega (arith, length-le_bytes n v)),
  le_value-le_bytes n v h,
)

pub put_le-part :
    (n : ℕ) (pre x post : Bytes) (lo v : ℕ)
    → length pre ≡ lo
    → length x ≡ n
    → put_le n (pre ++ (x ++ post)) lo v ≡ ok (pre ++ (le_bytes n v ++ post))
unfolding put_le
put_le-part n pre x post lo v p q =
    let size = length-le_bytes n v in
    copy_part pre x (le_bytes n v) post lo (lo + n) p (omega arith) (omega arith)
