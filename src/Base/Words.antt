-- ===== src/Base/Words.antt =====
-- Machine words: a `w`-bit word is a number below `2 ^ w`, and casts, sums, differences and shifts
-- wrap as the language does in a build without overflow checks (a shift takes its count modulo
-- the width).
use Prim.Native.Nat.{ℕ, ◌+◌, ◌-◌, ◌*◌, ◌/◌, ◌%◌, ◌^◌, ◌≤◌, ◌<◌}
use mathlib.Core.Path.{◌≡◌, ap}
use native.Mathlib.Omega.{arith}
use serialize_rs.Base.Pow.{pow_pos, pow_mono}

abbrev pub IsWord : ℕ → ℕ → Type 0
IsWord w x = x < 2 ^ w

-- `x as u8`, `x as u32`, `x as u64`, `x as u128`.
abbrev pub cast : ℕ → ℕ → ℕ
cast w x = x % 2 ^ w

-- `a + b` and `a.wrapping_add(b)`.
abbrev pub add_word : ℕ → ℕ → ℕ → ℕ
add_word w a b = (a + b) % 2 ^ w

-- `a - b` and `a.wrapping_sub(b)`.
abbrev pub sub_word : ℕ → ℕ → ℕ → ℕ
sub_word w a b = (a + 2 ^ w - b) % 2 ^ w

-- `x << k`.
abbrev pub shl : ℕ → ℕ → ℕ → ℕ
shl w x k = 2 ^ (k % w) * x % 2 ^ w

-- `x >> k`.
abbrev pub shr : ℕ → ℕ → ℕ → ℕ
shr w x k = x / 2 ^ (k % w)

-- `((1u64 << bits) - 1) as u32`.
abbrev pub mask32 : ℕ → ℕ
mask32 bits = cast 32 (sub_word 64 (shl 64 1 bits) 1)

pub mask32_lem : (bits : ℕ) → bits ≤ 32 → mask32 bits ≡ 2 ^ bits - 1
mask32_lem bits h = omega (arith, small, ap (λ (t : ℕ). 2 ^ t) whole, pow_pos bits)
  where
    whole : bits % 64 ≡ bits
    whole = omega arith

    small : 2 ^ bits ≤ 2 ^ 32
    small = pow_mono h
