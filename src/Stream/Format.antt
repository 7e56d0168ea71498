-- ===== src/Stream/Format.antt =====
-- What the checks of a fixed point declaration give: raw bounds that fit the storage, and raw
-- values between them.
pub mod Signed
pub mod Unsigned
pub mod Codes
use serialize_rs.Base.{
  ℕ, suc, ◌+◌, ◌-◌, ◌*◌, ◌%◌, ◌^◌, ◌≤◌, ◌<◌, ◌≡◌, ap, ap₂, sym, ◌∙◌, arith, Bool, true, false, ltb,
  leb, ◌&&◌, ◌||◌, if◌then◌else◌, inl, inr, Bool-cases, shl, sub_word, add_word, pow_pos, pow-add,
  pow_mono, field_lt,
}
use mathlib.Core.Path.{subst}
use native.Mathlib.Nat.{mod-eq_of_lt, mod-lt, mul-le-mul_left}
use serialize_rs.Base.Int.{
  ℤ, pos, negsuc, pos_part, neg_part, ◌≤ℤ◌, leb_ℤ, eq_ℤ, IsSigned, to_word, of_word, add_word_lem,
}
use serialize_rs.Stream.Fixed.{FixedPointStorage, from_unsigned, fit_format, raw_min, raw_range}
use serialize_rs.Stream.Scale.{
  scale, scale_parts, scale-lt, raw_min_lem, raw_range_lem, narrow_signed,
}

-- The values of the storage type.
abbrev pub IsStored : FixedPointStorage → ℤ → Type 0
IsStored t v = if t.signed then IsSigned t.bits v else (pos 0 ≤ℤ v) × (pos_part v < 2 ^ t.bits)

-- A value of the storage between the bounds, in raw units.
abbrev pub IsFixed : FixedPointStorage → ℕ → ℤ → ℤ → ℤ → Type 0
IsFixed t f min max v = IsStored t v × (scale f min ≤ℤ v) × (v ≤ℤ scale f max)

-- Such a value, and its word of 128 bits.
abbrev pub IsDecoded : FixedPointStorage → ℕ → ℤ → ℤ → ℕ → ℤ → Type 0
IsDecoded t f min max word v = IsFixed t f min max v × (to_word 128 v ≡ word)
