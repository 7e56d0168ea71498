-- ===== src/Base/BitXor.antt =====
-- `^` of words: with no bits it changes nothing, with all ones it is the complement.
use Prim.Native.Nat.{ℕ, zero, suc, ◌+◌, ◌-◌, ◌*◌, ◌/◌, ◌%◌, ◌^◌, ◌<◌}
use mathlib.Core.Path.{◌≡◌, ap}
use native.Mathlib.Nat.{pow-suc}
use native.Mathlib.Omega.{arith}
use serialize_rs.Base.Tests.{◌==◌, if◌then◌else◌}
use serialize_rs.Base.Pow.{pow_pos}

-- `a ^ b` of words of `w` bits, from the lowest bit up.
unfoldable pub bit_xor : ℕ → ℕ → ℕ → ℕ
bit_xor zero a b = 0
bit_xor (suc w) a b = 2 * bit_xor w (a / 2) (b / 2) + (if a % 2 == b % 2 then 0 else 1)

pub bit_xor-zero : (w a : ℕ) → a < 2 ^ w → bit_xor w a 0 ≡ a
unfolding bit_xor
bit_xor-zero zero a h = omega arith
bit_xor-zero (suc w) a h = ground (arith, pow-suc 2 w, bit_xor-zero w (a / 2))

pub bit_xor-ones : (w a : ℕ) → a < 2 ^ w → bit_xor w a (2 ^ w - 1) ≡ 2 ^ w - 1 - a
unfolding bit_xor
bit_xor-ones zero a h = omega arith
bit_xor-ones (suc w) a h = ground (
  arith,
  pow-suc 2 w,
  pow_pos w,
  bit_xor-ones w (a / 2),
  ap (λ (t : ℕ). bit_xor w (a / 2) t) halved,
)
  where
    halved : (2 ^ suc w - 1) / 2 ≡ 2 ^ w - 1
    halved = omega (arith, pow-suc 2 w, pow_pos w)
