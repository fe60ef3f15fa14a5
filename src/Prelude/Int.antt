-- ===== src/Prelude/Int.antt =====
-- Go's `int` where it may be negative: layers, rounds and indices.
use Prim.Native.Nat.{ℕ, zero, suc, ◌+◌, ◌-◌, ◌%◌, ◌^◌, ◌<◌}
use mathlib.Core.Path.{◌≡◌}
use mathlib.Core.Logic.{◌↔◌}
use mathlib.Core.Bool.{Bool, true, false}
use native.Mathlib.Omega.{arith}
use bmrng.Prelude.Assoc.{Eq}
use bmrng.Prelude.Tests.{◌==◌, ltb, if◌then◌else◌}

-- `negsuc n` is -(n + 1).
pub data ℤ : Type 0 where
  pos : ℕ → ℤ
  negsuc : ℕ → ℤ

-- The test `==`.
abbrev pub beq : ℤ → ℤ → Bool
beq (pos a) (pos b) = a == b
beq (negsuc a) (negsuc b) = a == b
beq (pos a) (negsuc b) = false
beq (negsuc a) (pos b) = false

pub beq_iff : (a b : ℤ) → (beq a b ≡ true) ↔ (a ≡ b)
beq_iff (pos a) (pos b) = ground arith
beq_iff (negsuc a) (negsuc b) = ground arith
beq_iff (pos a) (negsuc b) = ground arith
beq_iff (negsuc a) (pos b) = ground arith

instance abbrev pub int_eq : Eq ℤ
int_eq = record { beq = beq; beq_iff = beq_iff }

-- The test `<`.
abbrev pub ltz : ℤ → ℤ → Bool
ltz (pos a) (pos b) = ltb a b
ltz (negsuc a) (negsuc b) = ltb b a
ltz (pos a) (negsuc b) = false
ltz (negsuc a) (pos b) = true

-- The test `n < 0`.
abbrev pub is_negative : ℤ → Bool
is_negative (pos n) = false
is_negative (negsuc n) = true

-- `n + 1`.
abbrev pub succ : ℤ → ℤ
succ (pos n) = pos (n + 1)
succ (negsuc zero) = pos 0
succ (negsuc (suc n)) = negsuc n

-- `uint32(n)` of an `int`, and `int32(v)` of a `uint32`: two's complement.
abbrev pub to_u32 : ℤ → ℕ
to_u32 (pos n) = n % 2 ^ 32
to_u32 (negsuc n) = 2 ^ 32 - 1 - n % 2 ^ 32

abbrev pub from_u32 : ℕ → ℤ
from_u32 v = if ltb v (2 ^ 31) then pos v else negsuc (2 ^ 32 - 1 - v)

-- `uint64(n)` of an `int` of 64 bits, and `int64(v)` of a `uint64`.
abbrev pub to_u64 : ℤ → ℕ
to_u64 (pos n) = n % 2 ^ 64
to_u64 (negsuc n) = 2 ^ 64 - 1 - n % 2 ^ 64

abbrev pub from_u64 : ℕ → ℤ
from_u64 v = if ltb v (2 ^ 63) then pos v else negsuc (2 ^ 64 - 1 - v)

pub to_u32-lt : (z : ℤ) → to_u32 z < 256 ^ 4
to_u32-lt (pos n) = omega arith
to_u32-lt (negsuc n) = omega arith

pub to_u64-lt : (z : ℤ) → to_u64 z < 256 ^ 8
to_u64-lt (pos n) = omega arith
to_u64-lt (negsuc n) = omega arith

-- The values of an `int32` and an `int64`.
abbrev pub IsInt32 : ℤ → Type 0
IsInt32 (pos n) = n < 2 ^ 31
IsInt32 (negsuc n) = n < 2 ^ 31

abbrev pub IsInt64 : ℤ → Type 0
IsInt64 (pos n) = n < 2 ^ 63
IsInt64 (negsuc n) = n < 2 ^ 63

pub from_u32-to_u32 : (z : ℤ) → IsInt32 z → from_u32 (to_u32 z) ≡ z
from_u32-to_u32 (pos n) h = ground arith
from_u32-to_u32 (negsuc n) h = ground arith

pub from_u64-to_u64 : (z : ℤ) → IsInt64 z → from_u64 (to_u64 z) ≡ z
from_u64-to_u64 (pos n) h = ground arith
from_u64-to_u64 (negsuc n) h = ground arith

-- The values of a `uint32`.
abbrev pub IsUint32 : ℤ → Type 0
IsUint32 (pos n) = n < 2 ^ 32
IsUint32 (negsuc n) = ⊥

pub to_u32_same : (z : ℤ) → IsUint32 z → pos (to_u32 z) ≡ z
to_u32_same (pos n) h = ground arith
to_u32_same (negsuc n) h = absurd h

pub to_u32-pos : (z : ℤ) → to_u32 (pos (to_u32 z)) ≡ to_u32 z
to_u32-pos (pos n) = omega arith
to_u32-pos (negsuc n) = omega arith

pub to_u32-from_u32 : (v : ℕ) → v < 2 ^ 32 → to_u32 (from_u32 v) ≡ v
to_u32-from_u32 v h = ground arith

pub ltz_trans : (a b c : ℤ) → ltz a c ≡ true → ltz a b ≡ false → ltz c b ≡ false
ltz_trans (pos a) (pos b) (pos c) p q = ground arith
ltz_trans (pos a) (pos b) (negsuc c) p q = ground arith
ltz_trans (pos a) (negsuc b) (pos c) p q = ground arith
ltz_trans (pos a) (negsuc b) (negsuc c) p q = ground arith
ltz_trans (negsuc a) (pos b) (pos c) p q = ground arith
ltz_trans (negsuc a) (pos b) (negsuc c) p q = ground arith
ltz_trans (negsuc a) (negsuc b) (pos c) p q = ground arith
ltz_trans (negsuc a) (negsuc b) (negsuc c) p q = ground arith

pub ltz_irrefl : (a : ℤ) → ltz a a ≡ false
ltz_irrefl (pos a) = ground arith
ltz_irrefl (negsuc a) = ground arith

pub ltz-false_trans : (a b c : ℤ) → ltz a b ≡ false → ltz b c ≡ false → ltz a c ≡ false
ltz-false_trans (pos a) (pos b) (pos c) p q = ground arith
ltz-false_trans (pos a) (pos b) (negsuc c) p q = ground arith
ltz-false_trans (pos a) (negsuc b) (pos c) p q = ground arith
ltz-false_trans (pos a) (negsuc b) (negsuc c) p q = ground arith
ltz-false_trans (negsuc a) (pos b) (pos c) p q = ground arith
ltz-false_trans (negsuc a) (pos b) (negsuc c) p q = ground arith
ltz-false_trans (negsuc a) (negsuc b) (pos c) p q = ground arith
ltz-false_trans (negsuc a) (negsuc b) (negsuc c) p q = ground arith

-- The sum.
abbrev pub add : ℤ → ℤ → ℤ
add (pos a) (pos b) = pos (a + b)
add (pos a) (negsuc b) = if ltb b a then pos (a - (b + 1)) else negsuc (b - a)
add (negsuc a) (pos b) = if ltb a b then pos (b - (a + 1)) else negsuc (a - b)
add (negsuc a) (negsuc b) = negsuc (a + b + 1)
