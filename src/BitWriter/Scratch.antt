-- ===== src/BitWriter/Scratch.antt =====
-- The scratch word of `write_bits`: what `|`, the two shifts and the width mean as arithmetic.
use serialize_rs.Base.{
  ℕ, ◌+◌, ◌-◌, ◌*◌, ◌/◌, ◌%◌, ◌^◌, ◌≤◌, ◌<◌, ◌≡◌, ap, ◌∙◌, arith, bit_or, shl, shr, sub_word, true,
  ltb, lt→ltb, bit_or_above, pow_pos, pow_mono, pow-add, pow-split, mod-mul, field_lt,
}
use native.Mathlib.Nat.{
  mul-mod_right, mul-div_cancel_left, mod-lt, mod-eq_of_lt, div-add-mod, div-lt_iff_lt-mul,
}

-- A shift by less than the width keeps the bits that still fit.
pub shl_lem : (v k : ℕ) → k < 64 → shl 64 v k ≡ 2 ^ k * (v % 2 ^ (64 - k))
shl_lem v k h = omega (
  arith,
  ap (λ (t : ℕ). 2 ^ t * v % 2 ^ 64) small,
  ap (λ (t : ℕ). 2 ^ k * v % t) (pow-split k 64 (omega arith)),
  mod-mul (2 ^ k * v) (2 ^ k) (2 ^ (64 - k)) (pow_pos k) (pow_pos (64 - k)),
  mul-mod_right (2 ^ k) v,
  ap (λ (t : ℕ). 2 ^ k * (t % 2 ^ (64 - k))) (mul-div_cancel_left v (pow_pos k)),
)
  where
    small : k % 64 ≡ k
    small = omega arith

-- `self.scratch |= u64::from(value) << self.scratch_bits`
pub merge_lem :
    (s v k : ℕ) → k < 64 → s < 2 ^ k → bit_or s (shl 64 v k) ≡ s + 2 ^ k * (v % 2 ^ (64 - k))
merge_lem s v k h held = ap (bit_or s) (shl_lem v k h) ∙ bit_or_above k s (v % 2 ^ (64 - k)) held

pub merge-lt : (s v k : ℕ) → k < 64 → s < 2 ^ k → s + 2 ^ k * (v % 2 ^ (64 - k)) < 2 ^ 64
merge-lt s v k h held = omega (
  arith,
  pow-split k 64 (omega arith),
  field_lt (2 ^ k) (2 ^ (64 - k)) s (v % 2 ^ (64 - k)) held (mod-lt v (pow_pos (64 - k))),
)

-- What spills: `u64::from(value) >> (64 - self.scratch_bits)`.
pub spill_lem : (v k : ℕ) → 0 < k → k < 64 → shr 64 v (sub_word 32 64 k) ≡ v / 2 ^ (64 - k)
spill_lem v k p h = ap (λ (t : ℕ). v / 2 ^ t) (omega arith)

pub spill-lt :
    (v k bits : ℕ) → 64 ≤ k + bits → k < 64 → v < 2 ^ bits → v / 2 ^ (64 - k) < 2 ^ (k + bits - 64)
spill-lt v k bits long h fits = (div-lt_iff_lt-mul (pow_pos (64 - k))).1 bound
  where
    e : (k + bits - 64) + (64 - k) ≡ bits
    e = omega arith

    bound : v < 2 ^ (k + bits - 64) * 2 ^ (64 - k)
    bound = omega (arith, pow-add (k + bits - 64) (64 - k), ap (λ (t : ℕ). 2 ^ t) e)

-- The kept and the spilled bits are the value.
pub spill_whole :
    (s v k : ℕ)
    → k < 64
    → s + 2 ^ k * (v % 2 ^ (64 - k)) + 2 ^ 64 * (v / 2 ^ (64 - k)) ≡ s + 2 ^ k * v
spill_whole s v k h = omega (
  arith,
  ap (λ (t : ℕ). t * (v / 2 ^ (64 - k))) (pow-split k 64 (omega arith)),
  ap (λ (t : ℕ). 2 ^ k * t) (div-add-mod v (2 ^ (64 - k))),
)

pub fits_whole : (v k bits : ℕ) → k + bits < 64 → v < 2 ^ bits → v % 2 ^ (64 - k) ≡ v
fits_whole v k bits h fits = mod-eq_of_lt (omega (arith, small))
  where
    small : 2 ^ bits ≤ 2 ^ (64 - k)
    small = pow_mono (omega arith)

-- The debug assertion `u64::from(value) < (1u64 << bits)`.
pub fits_assert : (v bits : ℕ) → bits ≤ 32 → v < 2 ^ bits → ltb v (shl 64 1 bits) ≡ true
fits_assert v bits h fits =
    lt→ltb v (shl 64 1 bits) (omega (arith, ap (λ (t : ℕ). 2 ^ t * 1 % 2 ^ 64) whole, small))
  where
    whole : bits % 64 ≡ bits
    whole = omega arith

    small : 2 ^ bits ≤ 2 ^ 32
    small = pow_mono h
