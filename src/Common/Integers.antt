-- ===== src/Common/Integers.antt =====
-- Integers over the native numbers, for the `int`s of the code whose values stay far from the limits.
use Prim.Native.Nat.{ℕ, suc, ◌+◌, ◌-◌, ◌*◌, ◌/◌, ◌%◌}
use mathlib.Core.Path.{◌≡◌}
use mathlib.Core.Bool.{Bool, ◌&&◌}
use native.Mathlib.Omega.{arith}
use usbdisplay_stack.Common.Tests.{ltb, leb, if◌then◌else◌}

-- `negsuc n` is -(n + 1).
pub data ℤ : Type 0 where
  pos : ℕ → ℤ
  negsuc : ℕ → ℤ

-- How far a number is above 0, and how far it is below.
abbrev pub above : ℤ → ℕ
above (pos n) = n
above (negsuc n) = 0

abbrev pub below : ℤ → ℕ
below (pos n) = 0
below (negsuc n) = suc n

abbrev pub diff : ℕ → ℕ → ℤ
diff a b = if leb b a then pos (a - b) else negsuc (b - a - 1)

infixl 65 ◌+ℤ◌ ◌-ℤ◌
unfoldable pub ◌+ℤ◌ : ℤ → ℤ → ℤ
x +ℤ y = diff (above x + above y) (below x + below y)

unfoldable pub ◌-ℤ◌ : ℤ → ℤ → ℤ
x -ℤ y = diff (above x + below y) (below x + above y)

infixl 70 ◌*ℤ◌ ◌/ℤ◌
abbrev pub ◌*ℤ◌ : ℤ → ℤ → ℤ
x *ℤ y = diff (above x * above y + below x * below y) (above x * below y + below x * above y)

-- Division by a positive number, towards 0.
abbrev pub ◌/ℤ◌ : ℤ → ℕ → ℤ
x /ℤ d = diff (above x / d) (below x / d)

abbrev pub ltb_ℤ : ℤ → ℤ → Bool
ltb_ℤ x y = ltb (above x + below y) (above y + below x)

abbrev pub leb_ℤ : ℤ → ℤ → Bool
leb_ℤ x y = leb (above x + below y) (above y + below x)

abbrev pub eqb_ℤ : ℤ → ℤ → Bool
eqb_ℤ x y = leb_ℤ x y && leb_ℤ y x

-- (unsigned int)x
abbrev pub u32_ℤ : ℤ → ℕ
u32_ℤ (pos n) = n % 4294967296
u32_ℤ (negsuc n) = 4294967295 - n % 4294967296

-- What the operations do to the parts; with these they stay shut.
pub +ℤ_parts :
    (x y : ℤ) → above (x +ℤ y) + (below x + below y) ≡ below (x +ℤ y) + (above x + above y)
unfolding ◌+ℤ◌
+ℤ_parts x y = ground arith

pub -ℤ_parts :
    (x y : ℤ) → above (x -ℤ y) + (below x + above y) ≡ below (x -ℤ y) + (above x + below y)
unfolding ◌-ℤ◌
-ℤ_parts x y = ground arith

pub ℤ_ext : (x y : ℤ) → above x + below y ≡ above y + below x → x ≡ y
ℤ_ext x y h = ground arith
