-- ===== src/Base/Int.antt =====
-- C's `int` and `long`: the integers, with the conversions from `long` to `int` written out.
-- `negsuc n` is -(n + 1).
use Prim.Native.Nat.{ℕ, ◌+◌, ◌-◌, ◌%◌, ◌^◌, ◌<◌}
use mathlib.Core.Path.{◌≡◌}
use mathlib.Core.Logic.{◌↔◌}
use mathlib.Core.Bool.{Bool, true, false}
use native.Mathlib.Omega.{arith}
use sistemas_distribuid.Base.Tests.{ltb, ◌==◌, if◌then◌else◌}

pub data ℤ : Type 0 where
  pos : ℕ → ℤ
  negsuc : ℕ → ℤ

infix 50 ◌=ℤ◌
abbrev pub ◌=ℤ◌ : ℤ → ℤ → Bool
pos a =ℤ pos b = a == b
pos a =ℤ negsuc b = false
negsuc a =ℤ pos b = false
negsuc a =ℤ negsuc b = a == b

-- `x < 0`
abbrev pub is_neg : ℤ → Bool
is_neg (pos n) = false
is_neg (negsuc n) = true

-- `a < b`
abbrev pub ltb_ℤ : ℤ → ℤ → Bool
ltb_ℤ (pos a) (pos b) = ltb a b
ltb_ℤ (pos a) (negsuc b) = false
ltb_ℤ (negsuc a) (pos b) = true
ltb_ℤ (negsuc a) (negsuc b) = ltb b a

-- `-1`
abbrev pub minus_one : ℤ
minus_one = negsuc 0

-- The `int` with a given 32-bit pattern.
abbrev pub of_bits : ℕ → ℤ
of_bits w = if ltb w (2 ^ 31) then pos w else negsuc (2 ^ 32 - 1 - w)

-- The conversion of a `long` to `int`, which keeps the low 32 bits.
unfoldable pub to_int : ℤ → ℤ
to_int (pos n) = of_bits (n % 2 ^ 32)
to_int (negsuc n) = of_bits (2 ^ 32 - 1 - n % 2 ^ 32)

-- `x + 1` on an `int`, which wraps at the largest one.
unfoldable pub suc_int : ℤ → ℤ
unfolding to_int
suc_int (pos n) = to_int (pos (n + 1))
suc_int (negsuc n) = elim n [ ℕ.zero ↦ pos 0 | ℕ.suc m ↦ negsuc m ]

-- The values that an `int` can hold.
abbrev pub IsInt : ℤ → Type 0
IsInt (pos n) = n < 2 ^ 31
IsInt (negsuc n) = n < 2 ^ 31

pub to_int-id : (x : ℤ) → IsInt x → to_int x ≡ x
unfolding to_int
to_int-id (pos n) h = ground arith
to_int-id (negsuc n) h = ground arith

pub to_int-IsInt : (x : ℤ) → IsInt (to_int x)
unfolding to_int
to_int-IsInt (pos n) = ground arith
to_int-IsInt (negsuc n) = ground arith

pub =ℤ_iff : (a b : ℤ) → ((a =ℤ b) ≡ true) ↔ (a ≡ b)
=ℤ_iff a b = ground arith

pub =ℤ_refl : (a : ℤ) → (a =ℤ a) ≡ true
=ℤ_refl a = ground arith

-- The successor of the largest `int` is negative; below it the successor is larger.
pub suc_int_lem :
    (n : ℕ)
    → n < 2 ^ 31
    → is_neg (suc_int (pos n)) ≡ false
    → IsInt (suc_int (pos n)) × (ltb_ℤ (pos n) (suc_int (pos n)) ≡ true)
unfolding suc_int
suc_int_lem n h k = ground arith
