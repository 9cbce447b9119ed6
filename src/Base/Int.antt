-- ===== src/Base/Int.antt =====
-- Integers (`bigint`) over the native numbers, under the library's names.
use Prim.Native.Nat.{ℕ, ◌+◌, ◌-◌}
use mathlib.Core.Path.{◌≡◌, refl}
use mathlib.Core.Bool.{Bool, true, false, not}
use native.Mathlib.Omega.{arith}
use moq_web.Base.Tests.{leb, if◌then◌else◌}

-- `negsuc n` is -(n + 1).
pub data ℤ : Type 0 where
  pos : ℕ → ℤ
  negsuc : ℕ → ℤ

-- `a <= b` and `a < b` on integers.
abbrev pub leb_int : ℤ → ℤ → Bool
leb_int (pos a) (pos b) = leb a b
leb_int (pos a) (negsuc b) = false
leb_int (negsuc a) (pos b) = true
leb_int (negsuc a) (negsuc b) = leb b a

abbrev pub ltb_int : ℤ → ℤ → Bool
ltb_int a b = not (leb_int b a)

-- `a - b` on integers.
infixl 65 ◌-ℤ◌
abbrev pub ◌-ℤ◌ : ℤ → ℤ → ℤ
pos a -ℤ pos b = if leb b a then pos (a - b) else negsuc (b - a - 1)
pos a -ℤ negsuc b = pos (a + b + 1)
negsuc a -ℤ pos b = negsuc (a + b)
negsuc a -ℤ negsuc b = if leb a b then pos (b - a) else negsuc (a - b - 1)

pub leb_int_refl : (a : ℤ) → leb_int a a ≡ true
leb_int_refl (pos a) = ground arith
leb_int_refl (negsuc a) = ground arith

pub leb_int_trans : (a b c : ℤ) → leb_int a b ≡ true → leb_int b c ≡ true → leb_int a c ≡ true
leb_int_trans (pos a) (pos b) (pos c) h k = ground arith
leb_int_trans (pos a) (pos b) (negsuc c) h k = absurd (ground arith)
leb_int_trans (pos a) (negsuc b) c h k = absurd (ground arith)
leb_int_trans (negsuc a) b (pos c) h k = refl
leb_int_trans (negsuc a) (pos b) (negsuc c) h k = absurd (ground arith)
leb_int_trans (negsuc a) (negsuc b) (negsuc c) h k = ground arith

pub leb_int_total : (a b : ℤ) → leb_int a b ≡ false → leb_int b a ≡ true
leb_int_total (pos a) (pos b) h = ground arith
leb_int_total (pos a) (negsuc b) h = refl
leb_int_total (negsuc a) (pos b) h = absurd (ground arith)
leb_int_total (negsuc a) (negsuc b) h = ground arith
