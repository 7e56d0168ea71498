-- ===== src/Base/BitOr.antt =====
-- `|` of a value with one shifted past its bits is a sum, and `&` with a mask of low ones is a
-- remainder, at every width.
use Prim.Native.Nat.{
  ℕ, zero, suc, ◌+◌, ◌-◌, ◌*◌, ◌/◌, ◌%◌, ◌^◌, ◌≤◌, ◌<◌, min, max, bit_and, bit_or, digits,
  bit_and-bitwise, bit_or-bitwise,
}
use mathlib.Core.Path.{◌≡◌, refl, ap, ◌∙◌}
use native.Mathlib.Nat.{pow-suc, mul_comm}
use serialize_rs.Base.Pow.{pow_pos, mod-mul}
use native.Mathlib.Omega.{arith}

-- How many digits the definition of the native operations is given does not matter.
module _ (z : ℕ → ℕ) (f : ℕ → ℕ → ℕ) where
  digits_enough : (n m a b : ℕ) → a ≤ n → a ≤ m → digits z f n a b ≡ digits z f m a b
  digits_enough zero zero a b p q = refl
  digits_enough zero (suc m) zero b p q = refl
  digits_enough zero (suc m) (suc a) b p q = absurd (omega arith)
  digits_enough (suc n) zero zero b p q = refl
  digits_enough (suc n) zero (suc a) b p q = absurd (omega arith)
  digits_enough (suc n) (suc m) zero b p q = refl
  digits_enough (suc n) (suc m) (suc a) b p q =
      ap (λ (t : ℕ). t * 2 + f (suc a % 2) (b % 2))
        (digits_enough n m (suc a / 2) (b / 2) (omega arith) (omega arith))

or_low : (a b : ℕ) → bit_or a b ≡ bit_or (a / 2) (b / 2) * 2 + max (a % 2) (b % 2)
or_low zero b = omega (arith, bit_or-bitwise 0 b, bit_or-bitwise 0 (b / 2))
or_low (suc a) b = omega (
  arith,
  bit_or-bitwise (suc a) b,
  bit_or-bitwise (suc a / 2) (b / 2),
  digits_enough (λ y. y) max a (suc a / 2) (suc a / 2) (b / 2) (omega arith) (omega arith),
)

and_low : (a b : ℕ) → bit_and a b ≡ bit_and (a / 2) (b / 2) * 2 + min (a % 2) (b % 2)
and_low zero b = omega (arith, bit_and-bitwise 0 b, bit_and-bitwise 0 (b / 2))
and_low (suc a) b = omega (
  arith,
  bit_and-bitwise (suc a) b,
  bit_and-bitwise (suc a / 2) (b / 2),
  digits_enough (λ y. 0) min a (suc a / 2) (suc a / 2) (b / 2) (omega arith) (omega arith),
)

zero-or : (b : ℕ) → bit_or 0 b ≡ b
zero-or b = bit_or-bitwise 0 b

and-zero_upto : (n a : ℕ) → a ≤ n → bit_and a 0 ≡ 0
and-zero_upto n zero h = refl
and-zero_upto zero (suc a) h = absurd (omega arith)
and-zero_upto (suc n) (suc a) h =
    omega (arith, and_low (suc a) 0, and-zero_upto n (suc a / 2) (omega arith))

double_pow : (q k : ℕ) → 2 ^ suc k * q ≡ 2 * (2 ^ k * q)
double_pow q k = omega (arith, ap (λ (t : ℕ). t * q) (pow-suc 2 k))

-- `r | (q << k)` where `r` fits `k` bits.
pub bit_or_above : (k r q : ℕ) → r < 2 ^ k → bit_or r (2 ^ k * q) ≡ r + 2 ^ k * q
bit_or_above zero r q h = ground (arith, zero-or (1 * q))
bit_or_above (suc k) r q h =
    ground (arith, or_low r (2 ^ suc k * q), double_pow q k, pow-suc 2 k, bit_or_above k (r / 2) q)

or-zero_upto : (n a : ℕ) → a ≤ n → bit_or a 0 ≡ a
or-zero_upto n zero h = refl
or-zero_upto zero (suc a) h = absurd (omega arith)
or-zero_upto (suc n) (suc a) h =
    omega (arith, or_low (suc a) 0, or-zero_upto n (suc a / 2) (omega arith))

-- `(q << k) | r` where `r` fits `k` bits.
pub bit_or_below : (k q r : ℕ) → r < 2 ^ k → bit_or (2 ^ k * q) r ≡ r + 2 ^ k * q
bit_or_below zero q r h = ground (arith, or-zero_upto (1 * q) (1 * q))
bit_or_below (suc k) q r h =
    ground (arith, or_low (2 ^ suc k * q) r, double_pow q k, pow-suc 2 k, bit_or_below k q (r / 2))

-- `a & ((1 << k) - 1)`.
pub bit_and_mask : (k a : ℕ) → bit_and a (2 ^ k - 1) ≡ a % 2 ^ k
bit_and_mask zero a = omega (arith, and-zero_upto a a (omega arith))
bit_and_mask (suc k) a = omega (
  arith,
  and_low a (2 ^ suc k - 1),
  pow-suc 2 k,
  pow_pos k,
  bit_and_mask k (a / 2),
  ap (λ (t : ℕ). bit_and (a / 2) t) halved,
  mod-mul a 2 (2 ^ k) (omega arith) (pow_pos k),
  ap (λ (t : ℕ). a % t) (pow-suc 2 k ∙ mul_comm (2 ^ k) 2),
)
  where
    halved : (2 ^ suc k - 1) / 2 ≡ 2 ^ k - 1
    halved = omega (arith, pow-suc 2 k, pow_pos k)
