-- ===== src/Stream/Format/Codes.antt =====
-- The codes of the values of a fixed point field, of either storage.
use serialize_rs.Base.{
  ℕ, ◌+◌, ◌-◌, ◌%◌, ◌^◌, ◌≤◌, ◌<◌, ◌≡◌, ap, sym, ◌∙◌, arith, Bool, true, false, sub_word, add_word,
  pow_mono,
}
use mathlib.Core.Path.{subst}
use native.Mathlib.Nat.{mod-eq_of_lt}
use serialize_rs.Base.Int.{
  ℤ, pos, negsuc, ◌≤ℤ◌, eq_ℤ, IsSigned, to_word, of_word, to_word-lt, of_word-to_word,
}
use serialize_rs.Stream.Fixed.{from_unsigned, fit_format, raw_min, raw_range}
use serialize_rs.Stream.Scale.{scale-lt, narrow_signed}
use serialize_rs.Stream.Format.{IsStored, IsFixed, IsDecoded}
use serialize_rs.Stream.Format.Signed.{range_lem, signed-IsDecoded, signed_code-le}
use serialize_rs.Stream.Format.Unsigned.{range, unsigned-IsDecoded, unsigned_code-le}

module _ (w i f : ℕ) (some_bits : 1 ≤ i) (whole : i + f ≡ w) (most : w ≤ 128) where
  -- Either storage.
  pub from_unsigned-IsDecoded :
      (signed : Bool) (min max : ℤ)
      → IsSigned 64 min
      → IsSigned 64 max
      → fit_format (record { bits = w; signed = signed }) i min max ≡ true
      → min ≤ℤ max
      → (n : ℕ) → n ≤ raw_range f min max
      → IsDecoded
          (record { bits = w; signed = signed })
          f
          min
          max
          (add_word 128 (raw_min f min) n)
          (from_unsigned (record { bits = w; signed = signed }) (add_word 128 (raw_min f min) n))
  from_unsigned-IsDecoded true min max lo hi fit ordered n inside =
      signed-IsDecoded w i f some_bits whole most min max fit ordered n inside
  from_unsigned-IsDecoded false (pos a) (pos b) lo hi fit ordered n inside =
      unsigned-IsDecoded w i f some_bits whole most a b (omega arith) (ground (arith, fit))
        (omega arith) n inside
  from_unsigned-IsDecoded false (negsuc a) max lo hi fit ordered n inside =
      absurd (ground (arith, fit))
  from_unsigned-IsDecoded false (pos a) (negsuc b) lo hi fit ordered n inside = absurd (omega arith)

  -- A range that is not degenerate is not empty.
  pub raw_range-pos :
      (signed : Bool) (min max : ℤ)
      → IsSigned 64 min
      → IsSigned 64 max
      → fit_format (record { bits = w; signed = signed }) i min max ≡ true
      → min ≤ℤ max
      → eq_ℤ min max ≡ false
      → 0 < raw_range f min max
  raw_range-pos true min max lo hi fit ordered apart = omega (
    arith,
    range_lem w i f some_bits whole most min max fit ordered,
    scale-lt f min max (ground (arith, apart)),
  )
  raw_range-pos false (pos a) (pos b) lo hi fit ordered apart = omega (
    arith,
    range w i f some_bits whole most a b (omega arith) (ground (arith, fit)) (omega arith),
    scale-lt f (pos a) (pos b) (ground (arith, apart)),
  )
  raw_range-pos false (negsuc a) max lo hi fit ordered apart = absurd (ground (arith, fit))
  raw_range-pos false (pos a) (negsuc b) lo hi fit ordered apart = absurd (omega arith)

  pub code-le :
      (signed : Bool) (min max : ℤ)
      → IsSigned 64 min
      → IsSigned 64 max
      → fit_format (record { bits = w; signed = signed }) i min max ≡ true
      → min ≤ℤ max
      → (v : ℤ) → IsFixed (record { bits = w; signed = signed }) f min max v
      → sub_word 128 (to_word 128 v) (raw_min f min) ≤ raw_range f min max
  code-le true min max lo hi fit ordered v fixed =
      signed_code-le w i f some_bits whole most min max fit ordered v fixed
  code-le false (pos a) (pos b) lo hi fit ordered v fixed =
      unsigned_code-le w i f some_bits whole most a b (omega arith) (ground (arith, fit))
        (omega arith) v fixed
  code-le false (negsuc a) max lo hi fit ordered v fixed = absurd (ground (arith, fit))
  code-le false (pos a) (negsuc b) lo hi fit ordered v fixed = absurd (omega arith)

  -- A value of the storage is what its word of 128 bits is cast to.
  pub from_unsigned-to_word :
      (signed : Bool) (v : ℤ)
      → IsStored (record { bits = w; signed = signed }) v
      → from_unsigned (record { bits = w; signed = signed }) (to_word 128 v) ≡ v
  from_unsigned-to_word true v stored =
      narrow_signed w (to_word 128 v) (omega (arith, whole)) most (to_word-lt 128 (omega arith) v)
        (subst (IsSigned w) (sym back) stored)
      ∙ back
    where
      bound : 2 ^ (w - 1) ≤ 2 ^ 127
      bound = pow_mono {b = 127} (omega arith)

      back : of_word 128 (to_word 128 v) ≡ v
      back = of_word-to_word 128 (omega arith) v (omega (arith, stored, bound))
  from_unsigned-to_word false (pos k) (_, small) = ap pos (
      ap (λ (x : ℕ). x % 2 ^ w) (mod-eq_of_lt (omega (arith, small, pow_mono {b = 128} most)))
      ∙ mod-eq_of_lt small)
  from_unsigned-to_word false (negsuc k) (natural, _) = absurd (omega arith)
