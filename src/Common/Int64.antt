-- ===== src/Common/Int64.antt =====
-- The int64 of the source: an operation whose result it does not hold is undefined there, and has
-- no result here.
use Prim.Native.Nat.{ℕ, ◌+◌, ◌*◌, ◌^◌, ◌≤◌, ◌<◌}
use native.Mathlib.Nat.{mul-le-mul}
use mathlib.Core.Path.{◌≡◌}
use mathlib.Core.Bool.{◌&&◌}
use mathlib.Core.Option.{Option, none, some}
use native.Mathlib.Omega.{arith}
use pricetime.Common.Tests.{ltb, leb, if◌then◌else◌}
use pricetime.Common.Int.{ℤ, pos, negsuc, pos_part, neg_part, ◌+ℤ◌, ◌-ℤ◌, ◌*ℤ◌}

infixl 5 ◌>>=◌
abbrev pub ◌>>=◌ {ℓ κ} : {A : Type ℓ} {B : Type κ} → Option A → (A → Option B) → Option B
none >>= f = none
some a >>= f = f a

unfoldable pub int64 : ℤ → Option ℤ
int64 a = if ltb (pos_part a) (2 ^ 63) && leb (neg_part a) (2 ^ 63) then some a else none

-- At most `b` on either side of 0.
abbrev pub Within : ℕ → ℤ → Type 0
Within b a = (pos_part a ≤ b) × (neg_part a ≤ b)

pub int64-Within : (b : ℕ) (a : ℤ) → Within b a → b < 2 ^ 63 → int64 a ≡ some a
unfolding int64
int64-Within b a h k = ground arith

pub +ℤ-Within : (b c : ℕ) (x y : ℤ) → Within b x → Within c y → Within (b + c) (x +ℤ y)
unfolding ◌+ℤ◌
+ℤ-Within b c x y h k = ground arith

pub -ℤ-Within : (b c : ℕ) (x y : ℤ) → Within b x → Within c y → Within (b + c) (x -ℤ y)
unfolding ◌-ℤ◌
-ℤ-Within b c x y h k = ground arith

pub *ℤ-Within : (b c : ℕ) (x y : ℤ) → Within b x → Within c y → Within (b * c) (x *ℤ y)
unfolding ◌*ℤ◌
*ℤ-Within b c (pos m) (pos n) h k = ground (arith, mul-le-mul h.0 k.0)
*ℤ-Within b c (pos m) (negsuc n) h k = ground (arith, mul-le-mul h.0 k.1)
*ℤ-Within b c (negsuc m) (pos n) h k = ground (arith, mul-le-mul h.1 k.0)
*ℤ-Within b c (negsuc m) (negsuc n) h k = ground (arith, mul-le-mul h.1 k.1)

pub eq_of_int64 : (a : ℤ) {b : ℤ} → int64 a ≡ some b → b ≡ a
unfolding int64
eq_of_int64 a e = ground arith
