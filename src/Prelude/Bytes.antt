-- ===== src/Prelude/Bytes.antt =====
-- Byte slices as lists of numbers below 256: Go's slicing with its bounds check, `copy` into a
-- window, `make`, and encoding/binary's little-endian integers.
use Prim.Native.Nat.{ℕ, zero, suc, ◌+◌, ◌-◌, ◌*◌, ◌/◌, ◌%◌, ◌^◌, ◌<◌, min}
use mathlib.Core.Path.{◌≡◌, refl, ap}
use mathlib.Core.Bool.{◌&&◌}
use mathlib.Core.List.{List, [], ◌∷◌, ◌++◌}
use native.Mathlib.Omega.{arith}
use native.Mathlib.Nat.{pow-suc}
use bmrng.Prelude.Tests.{leb, if◌then◌else◌}
use bmrng.Prelude.Lists.{length, take, drop, replicate}
use bmrng.Prelude.Outcome.{Outcome, ok, panic}

abbrev pub Bytes : Type 0
Bytes = List ℕ

-- `make([]byte, n)`.
abbrev pub make : ℕ → Bytes
make n = replicate n 0

-- `b[lo:hi]`, of a slice whose capacity is its length.
unfoldable pub slice : Bytes → ℕ → ℕ → Outcome Bytes
slice b lo hi = if leb lo hi && leb hi (length b) then ok (take (hi - lo) (drop lo b)) else panic

-- `copy(b[lo:hi], src)`: the shorter of the two lengths is copied.
unfoldable pub copy_at : Bytes → ℕ → ℕ → Bytes → Outcome Bytes
copy_at b lo hi src =
    if leb lo hi && leb hi (length b)
    then ok (take lo b ++ (take (hi - lo) src ++ drop (lo + min (hi - lo) (length src)) b))
    else panic

-- `n` bytes of `v`, the lowest first, as `PutUint32` and `PutUint64` write them.
unfoldable pub le_bytes : ℕ → ℕ → Bytes
le_bytes zero v = []
le_bytes (suc n) v = (v % 256) ∷ le_bytes n (v / 256)

-- The number that bytes stand for, as `Uint32` and `Uint64` read them.
unfoldable pub le_value : Bytes → ℕ
le_value [] = 0
le_value (b ∷ bs) = b + 256 * le_value bs

pub length-le_bytes : (n v : ℕ) → length (le_bytes n v) ≡ n
unfolding le_bytes
length-le_bytes zero v = refl
length-le_bytes (suc n) v = ap suc (length-le_bytes n (v / 256))

pub le_value-le_bytes : (n v : ℕ) → v < 256 ^ n → le_value (le_bytes n v) ≡ v
unfolding le_bytes le_value
le_value-le_bytes zero v h = omega arith
le_value-le_bytes (suc n) v h =
    omega (arith, le_value-le_bytes n (v / 256) (omega (arith, pow-suc 256 n)))
