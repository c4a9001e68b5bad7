-- ===== src/Base/Digits.antt =====
-- The operations on binary digits, digit by digit, and numbers that are put together from two halves.
use Prim.Native.Nat.{
  ℕ, zero, suc, ◌+◌, ◌*◌, ◌/◌, ◌%◌, ◌^◌, ◌≤◌, ◌<◌, min, max, digits, bit_and, bit_or,
  bit_and-bitwise, bit_or-bitwise,
}
use mathlib.Core.Path.{◌≡◌, refl, ap}
use native.Mathlib.Omega.{arith}

-- A count of digits that is enough.
module _ (z : ℕ → ℕ) (f : ℕ → ℕ → ℕ) where
  digits_enough : (n m a b : ℕ) → a ≤ n → a ≤ m → digits z f n a b ≡ digits z f m a b
  digits_enough zero zero a b h k = refl
  digits_enough zero (suc m) zero b h k = refl
  digits_enough zero (suc m) (suc a) b h k = absurd (omega arith)
  digits_enough (suc n) zero zero b h k = refl
  digits_enough (suc n) zero (suc a) b h k = absurd (omega arith)
  digits_enough (suc n) (suc m) zero b h k = refl
  digits_enough (suc n) (suc m) (suc a) b h k =
      ap (λ x. x * 2 + f (suc a % 2) (b % 2))
        (digits_enough n m (suc a / 2) (b / 2) (omega arith) (omega arith))

  digits_halved :
      (a b : ℕ)
      → digits z f (suc a) (suc a) b
        ≡ digits z f (suc a / 2) (suc a / 2) (b / 2) * 2 + f (suc a % 2) (b % 2)
  digits_halved a b =
      ap (λ x. x * 2 + f (suc a % 2) (b % 2))
        (digits_enough a (suc a / 2) (suc a / 2) (b / 2) (omega arith) (omega arith))

pub zero-bit_and : (b : ℕ) → bit_and 0 b ≡ 0
zero-bit_and b = bit_and-bitwise 0 b

pub zero-bit_or : (b : ℕ) → bit_or 0 b ≡ b
zero-bit_or b = bit_or-bitwise 0 b

pub bit_and_halved : (a b : ℕ) → bit_and a b ≡ bit_and (a / 2) (b / 2) * 2 + min (a % 2) (b % 2)
bit_and_halved zero b = omega (arith, zero-bit_and b, zero-bit_and (b / 2))
bit_and_halved (suc a) b = omega (
  arith,
  bit_and-bitwise (suc a) b,
  bit_and-bitwise (suc a / 2) (b / 2),
  digits_halved (λ x. zero) min a b,
)

pub bit_or_halved : (a b : ℕ) → bit_or a b ≡ bit_or (a / 2) (b / 2) * 2 + max (a % 2) (b % 2)
bit_or_halved zero b = omega (arith, zero-bit_or b, zero-bit_or (b / 2))
bit_or_halved (suc a) b = omega (
  arith,
  bit_or-bitwise (suc a) b,
  bit_or-bitwise (suc a / 2) (b / 2),
  digits_halved (λ x. x) max a b,
)

double : (b x y : ℕ) → x ≡ 2 * y → b * x ≡ 2 * (b * y)
double b x y e = omega (arith, ap (λ (t : ℕ). b * t) e)

-- The known bits of two halves are those of the whole, for any set of bits.
pub bit_or-halves :
    (k a b known : ℕ)
    → a < 2 ^ k
    → bit_or (bit_and a known) (bit_and (b * 2 ^ k) known) ≡ bit_and (a + b * 2 ^ k) known
bit_or-halves zero zero b known h =
    rw (zero-bit_and known, zero-bit_or (bit_and (b * 1) known))
      (ap (λ x. bit_and x known) (omega arith))
bit_or-halves zero (suc a) b known h = absurd (omega arith)
bit_or-halves (suc k) a b known h =
    let p : 2 ^ suc k ≡ 2 * 2 ^ k = omega arith in
    let q : b * 2 ^ suc k ≡ 2 * (b * 2 ^ k) = double b (2 ^ suc k) (2 ^ k) p in
    let whole : (a + b * 2 ^ suc k) / 2 ≡ a / 2 + b * 2 ^ k = omega arith in
    let upper : b * 2 ^ suc k / 2 ≡ b * 2 ^ k = omega arith in
    let x = bit_and_halved a known in
    let y = rw upper at (bit_and_halved (b * 2 ^ suc k) known) in
    let xy = bit_or_halved (bit_and a known) (bit_and (b * 2 ^ suc k) known) in
    let x2 : bit_and a known / 2 ≡ bit_and (a / 2) (known / 2) = omega arith in
    let y2 : bit_and (b * 2 ^ suc k) known / 2 ≡ bit_and (b * 2 ^ k) (known / 2) = omega arith in
    let w = rw whole at (bit_and_halved (a + b * 2 ^ suc k) known) in
    let both = rw (x2, y2) at xy in
    let ih = bit_or-halves k (a / 2) b (known / 2) (omega arith) in omega arith
