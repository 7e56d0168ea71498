-- ===== src/Stream/Dwords.antt =====
-- The low and the high dword of a value wider than 32 bits, and their sum.
use serialize_rs.Base.{
  ℕ, ◌+◌, ◌-◌, ◌*◌, ◌/◌, ◌%◌, ◌^◌, ◌≤◌, ◌<◌, ◌≡◌, ap, ◌∙◌, arith, cast, shl, shr, bit_or, bit_and,
  bit_and_mask, bit_or_below, pow-add, pow_mono, field_pow_lt,
}

pub low_dword : (value : ℕ) → cast 32 (bit_and value 0xffff_ffff) ≡ value % 2 ^ 32
low_dword value = omega (arith, bit_and_mask 32 value)

pub high_dword : (value : ℕ) → value < 2 ^ 64 → cast 32 (shr 64 value 32) ≡ value / 2 ^ 32
high_dword value h = omega arith

pub join_dwords :
    (lo hi : ℕ) → lo < 2 ^ 32 → hi < 2 ^ 32 → bit_or (shl 64 hi 32) lo ≡ lo + 2 ^ 32 * hi
join_dwords lo hi p q = ap (λ (t : ℕ). bit_or t lo) fits ∙ bit_or_below 32 hi lo p
  where
    fits : 2 ^ 32 * hi % 2 ^ 64 ≡ 2 ^ 32 * hi
    fits = omega arith

pub high-small : (hi bits : ℕ) → bits ≤ 64 → hi < 2 ^ (bits - 32) → hi < 2 ^ 32
high-small hi bits k h = omega (arith, small)
  where
    small : 2 ^ (bits - 32) ≤ 2 ^ 32
    small = pow_mono {b = 32} (omega arith)

pub two_dwords-lt :
    (bits lo hi : ℕ) → 32 < bits → lo < 2 ^ 32 → hi < 2 ^ (bits - 32) → lo + 2 ^ 32 * hi < 2 ^ bits
two_dwords-lt bits lo hi h p q =
    omega (arith, field_pow_lt 32 (bits - 32) lo hi p q, ap (λ (t : ℕ). 2 ^ t) whole)
  where
    whole : 32 + (bits - 32) ≡ bits
    whole = omega arith

pub high_dword-lt :
    (bits value : ℕ) → 32 < bits → value < 2 ^ bits → value / 2 ^ 32 < 2 ^ (bits - 32)
high_dword-lt bits value h k = omega (arith, pow-add 32 (bits - 32), ap (λ (t : ℕ). 2 ^ t) whole)
  where
    whole : 32 + (bits - 32) ≡ bits
    whole = omega arith
