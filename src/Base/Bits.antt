-- ===== src/Base/Bits.antt =====
-- `|`, `&` and the shifts of JavaScript on natural numbers, as arithmetic at every width.
use Prim.Native.Nat.{
  ℕ, zero, suc, ◌+◌, ◌-◌, ◌*◌, ◌/◌, ◌%◌, ◌^◌, ◌≤◌, ◌<◌, min, max, digits, bit_and, bit_or,
  bit_and-bitwise, bit_or-bitwise,
}
use mathlib.Core.Path.{◌≡◌, refl, sym, ap, ◌∙◌}
use native.Mathlib.Omega.{arith}
use native.Mathlib.Nat.{pow-suc, one-le-pow}

abbrev pub shr : ℕ → ℕ → ℕ
shr x k = x / 2 ^ k

abbrev pub shl : ℕ → ℕ → ℕ
shl x k = x * 2 ^ k

-- The recursion that the native operations stand for does not depend on how much of its count is
-- left, once that covers the first number.
module _ (z : ℕ → ℕ) (f : ℕ → ℕ → ℕ) where
  digits_count : (n a b m : ℕ) → a ≤ n → a ≤ m → digits z f n a b ≡ digits z f m a b
  digits_count n zero b m p q = digits_zero n ∙ sym (digits_zero m)
    where
      digits_zero : (k : ℕ) → digits z f k zero b ≡ z b
      digits_zero zero = refl
      digits_zero (suc k) = refl
  digits_count zero (suc a) b m p q = absurd (omega arith)
  digits_count (suc n) (suc a) b zero p q = absurd (omega arith)
  digits_count (suc n) (suc a) b (suc m) p q =
      ap (λ (t : ℕ). t * 2 + f (suc a % 2) (b % 2))
        (digits_count n (suc a / 2) (b / 2) m (omega arith) (omega arith))

-- The lowest digit of each operation.
bit_or_low : (x y : ℕ) → bit_or x y ≡ max (x % 2) (y % 2) + 2 * bit_or (x / 2) (y / 2)
bit_or_low zero b = omega (arith, bit_or-bitwise 0 b, bit_or-bitwise 0 (b / 2))
bit_or_low (suc a) b = omega (
  arith,
  bit_or-bitwise (suc a) b,
  bit_or-bitwise (suc a / 2) (b / 2),
  digits_count (λ y. y) max a (suc a / 2) (b / 2) (suc a / 2) (omega arith) (omega arith),
)

bit_and_low : (x y : ℕ) → bit_and x y ≡ min (x % 2) (y % 2) + 2 * bit_and (x / 2) (y / 2)
bit_and_low zero b = omega (arith, bit_and-bitwise 0 b, bit_and-bitwise 0 (b / 2))
bit_and_low (suc a) b = omega (
  arith,
  bit_and-bitwise (suc a) b,
  bit_and-bitwise (suc a / 2) (b / 2),
  digits_count (λ y. 0) min a (suc a / 2) (b / 2) (suc a / 2) (omega arith) (omega arith),
)

bit_or-zero : (n a : ℕ) → a ≤ n → bit_or a 0 ≡ a
bit_or-zero n zero h = refl
bit_or-zero zero (suc a) h = absurd (omega arith)
bit_or-zero (suc n) (suc a) h =
    omega (arith, bit_or_low (suc a) 0, bit_or-zero n (suc a / 2) (omega arith))

bit_and-zero : (n a : ℕ) → a ≤ n → bit_and a 0 ≡ 0
bit_and-zero n zero h = refl
bit_and-zero zero (suc a) h = absurd (omega arith)
bit_and-zero (suc n) (suc a) h =
    omega (arith, bit_and_low (suc a) 0, bit_and-zero n (suc a / 2) (omega arith))

zero-bit_or : (b : ℕ) → bit_or 0 b ≡ b
zero-bit_or b = bit_or-bitwise 0 b

bit_or_comm_below : (n a b : ℕ) → a ≤ n → b ≤ n → bit_or a b ≡ bit_or b a
bit_or_comm_below n zero b p q = zero-bit_or b ∙ sym (bit_or-zero b b (omega arith))
bit_or_comm_below n (suc a) zero p q =
    bit_or-zero (suc a) (suc a) (omega arith) ∙ sym (zero-bit_or (suc a))
bit_or_comm_below zero (suc a) (suc b) p q = absurd (omega arith)
bit_or_comm_below (suc n) (suc a) (suc b) p q = omega (
  arith,
  bit_or_low (suc a) (suc b),
  bit_or_low (suc b) (suc a),
  bit_or_comm_below n (suc a / 2) (suc b / 2) (omega arith) (omega arith),
)

pub bit_or_comm : (a b : ℕ) → bit_or a b ≡ bit_or b a
bit_or_comm a b = bit_or_comm_below (a + b) a b (omega arith) (omega arith)

shl-suc : (x k : ℕ) → shl x (suc k) ≡ 2 * shl x k
shl-suc x k = omega (arith, ap (λ (t : ℕ). x * t) (pow-suc 2 k))

-- `(x << k) | y` is a sum where `y` has no more than `k` digits.
pub bit_or-shl : (k x y : ℕ) → y < 2 ^ k → bit_or (shl x k) y ≡ shl x k + y
bit_or-shl zero x y h = ground (arith, bit_or-zero x x)
bit_or-shl (suc k) x y h =
    ground (arith, bit_or_low (shl x (suc k)) y, shl-suc x k, pow-suc 2 k, bit_or-shl k x (y / 2))

bit_and-ones : (k x y : ℕ) → y < 2 ^ k → bit_and (shl x k + y) (2 ^ k - 1) ≡ y
bit_and-ones zero x y h = omega (arith, bit_and-zero (shl x 0 + y) (shl x 0 + y) (omega arith))
bit_and-ones (suc k) x y h = ground (
  arith,
  bit_and_low (shl x (suc k) + y) (2 ^ suc k - 1),
  shl-suc x k,
  pow-suc 2 k,
  one-le-pow k 2,
  bit_and-ones k x (y / 2),
)

-- `x & (2^k - 1)` is the remainder by `2^k`.
pub bit_and-mask : (k x : ℕ) → bit_and x (2 ^ k - 1) ≡ x % 2 ^ k
bit_and-mask k x = ground (arith, one-le-pow k 2, bit_and-ones k (x / 2 ^ k) (x % 2 ^ k))

-- The low byte.
pub bit_and-byte : (x : ℕ) → bit_and x 0xff ≡ x % 256
bit_and-byte x = bit_and-mask 8 x
