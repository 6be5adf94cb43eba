-- ===== src/Prelude/Bits.antt =====
-- The C operators `&` and `|` as arithmetic: masks on one byte, and the union of numbers whose
-- binary digits do not meet.
use Prim.Native.Nat.{
  ℕ, zero, suc, ◌+◌, ◌*◌, ◌/◌, ◌%◌, ◌≤◌, ◌<◌, max, bit_and, bit_or, digits, bit_or-bitwise,
}
use mathlib.Core.Path.{◌≡◌, refl}
use mathlib.Core.Bool.{Bool, true, ◌&&◌}
use native.Mathlib.Omega.{arith}
use os_coursework.Prelude.Tests.{◌==◌}

-- Two functions agree below a bound.
same_below : (ℕ → ℕ) → (ℕ → ℕ) → ℕ → Bool
same_below f g zero = true
same_below f g (suc n) = (f n == g n) && same_below f g n

same_below→eq : (f g : ℕ → ℕ) (n i : ℕ) → same_below f g n ≡ true → i < n → f i ≡ g i
unfolding same_below
same_below→eq f g zero i h lt = absurd (omega arith)
same_below→eq f g (suc n) i h lt = ground (arith, same_below→eq f g n i)

pub bit_and_low_nibble : (b : ℕ) → b < 256 → bit_and b 15 ≡ b % 16
unfolding same_below
bit_and_low_nibble b = same_below→eq (λ x. bit_and x 15) (λ x. x % 16) 256 b refl

pub bit_and_high_nibble : (b : ℕ) → b < 256 → bit_and b 240 ≡ b / 16 * 16
unfolding same_below
bit_and_high_nibble b = same_below→eq (λ x. bit_and x 240) (λ x. x / 16 * 16) 256 b refl

-- The union takes one binary digit of each number after the other.
or_digits_count :
    (n m a b : ℕ) → a ≤ n → a ≤ m → digits (λ c. c) max n a b ≡ digits (λ c. c) max m a b
or_digits_count zero zero a b h k = refl
or_digits_count zero (suc m) zero b h k = refl
or_digits_count zero (suc m) (suc a) b h k = absurd (omega (arith, h))
or_digits_count (suc n) zero zero b h k = refl
or_digits_count (suc n) zero (suc a) b h k = absurd (omega (arith, k))
or_digits_count (suc n) (suc m) zero b h k = refl
or_digits_count (suc n) (suc m) (suc a) b h k =
    omega (arith, or_digits_count n m (suc a / 2) (b / 2) (omega arith) (omega arith))

zero-bit_or : (b : ℕ) → bit_or 0 b ≡ b
zero-bit_or b = bit_or-bitwise 0 b

bit_or_digit : (a b : ℕ) → bit_or a b ≡ bit_or (a / 2) (b / 2) * 2 + max (a % 2) (b % 2)
bit_or_digit zero b = omega (arith, zero-bit_or b, zero-bit_or (b / 2))
bit_or_digit (suc a) b = omega (
  arith,
  bit_or-bitwise (suc a) b,
  bit_or-bitwise (suc a / 2) (b / 2),
  or_digits_count a (suc a / 2) (suc a / 2) (b / 2) (omega arith) (omega arith),
)

-- `b << k`
abbrev pub shift_left : ℕ → ℕ → ℕ
shift_left b zero = b
shift_left b (suc k) = 2 * shift_left b k

-- The union with a number that is shifted past all the digits of the other.
pub bit_or-shift_left :
    (k a b : ℕ) → a < shift_left 1 k → bit_or a (shift_left b k) ≡ a + shift_left b k
bit_or-shift_left zero a b h = ground (arith, zero-bit_or b)
bit_or-shift_left (suc k) a b h =
    let half : 2 * shift_left b k / 2 ≡ shift_left b k = omega arith in
    let digit = rw half at (bit_or_digit a (2 * shift_left b k)) in
    omega (arith, digit, bit_or-shift_left k (a / 2) b (omega arith))
