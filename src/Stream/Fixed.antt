-- ===== src/Stream/Fixed.antt =====
-- src/stream.rs: `serialize_fixed`. The storage type is its width and whether it is signed.
use serialize_rs.Base.{
  ℕ, ◌+◌, ◌-◌, ◌%◌, ◌^◌, Bool, ◌&&◌, ◌||◌, not, ltb, leb, ◌==◌, if◌then◌else◌, shl, sub_word,
  add_word,
}
use serialize_rs.Base.Int.{ℤ, pos, to_word, of_word, leb_ℤ, eq_ℤ, sub_ℤ}
use serialize_rs.BitsRequired.{leading_zeros}
use serialize_rs.Error.{value_out_of_range}
use serialize_rs.Outcome.{Outcome, ok, attempt, assert_then}
use serialize_rs.Stream.{Stream, declaration_check, fail_with, refuse_if_failed}
use serialize_rs.Stream.Wide.{serialize_offset128}

pub record FixedPointStorage : Type 0 where
  pub bits : ℕ
  pub signed : Bool

-- `raw as $t`
abbrev pub from_unsigned : FixedPointStorage → ℕ → ℤ
from_unsigned t raw = if t.signed then of_word t.bits (raw % 2 ^ t.bits) else pos (raw % 2 ^ t.bits)

-- The bounds in whole units fit the Q format.
abbrev pub fit_format : FixedPointStorage → ℕ → ℤ → ℤ → Bool
fit_format t integer_bits min_units max_units =
    let unit = shl 128 1 (sub_word 32 integer_bits 1) in
    if t.signed
    then leb_ℤ (of_word 128 (sub_word 128 0 unit)) min_units
      && leb_ℤ max_units (of_word 128 (sub_word 128 unit 1))
    else leb_ℤ (pos 0) min_units
      && (leb 64 integer_bits || ltb (to_word 64 max_units) (shl 64 1 integer_bits))

abbrev pub raw_min : ℕ → ℤ → ℕ
raw_min fraction_bits min_units = shl 128 (to_word 128 min_units) fraction_bits

abbrev pub raw_range : ℕ → ℤ → ℤ → ℕ
raw_range fraction_bits min_units max_units =
    shl 128 (to_word 128 (sub_ℤ max_units min_units)) fraction_bits

module _ {S : Type 0} (stream : Stream S) (t : FixedPointStorage) where
  open stream use {checked, is_writing, is_reading}

  -- `min_units == max_units`: no bits, behind the failure gate.
  unfoldable pub serialize_degenerate_fixed : ℤ → ℕ → S → Outcome ℤ S
  unfolding refuse_if_failed
  serialize_degenerate_fixed value low s = attempt value (refuse_if_failed stream s) λ _ s1.
      assert_then checked (not is_writing || to_word 128 value == low)
        (ok (if is_reading then from_unsigned t low else value) s1)

  -- The offset from the lower bound in raw units.
  unfoldable pub serialize_raw_fixed : ℤ → ℕ → ℕ → S → Outcome ℤ S
  unfolding serialize_offset128
  serialize_raw_fixed value low range s =
      let bits = 128 - leading_zeros 128 range in
      let offset = if is_writing then sub_word 128 (to_word 128 value) low else 0 in
      assert_then checked (not is_writing || leb offset range) (
        attempt value (serialize_offset128 stream offset bits s) λ n s1.
          if is_reading
          then (if ltb range n
              then fail_with stream value_out_of_range value s1
              else ok (from_unsigned t (add_word 128 low n)) s1)
          else ok value s1)

  unfoldable pub serialize_fixed : ℤ → ℕ → ℕ → ℤ → ℤ → S → Outcome ℤ S
  unfolding serialize_degenerate_fixed serialize_raw_fixed
  serialize_fixed value integer_bits fraction_bits min_units max_units s =
      declaration_check stream (leb 1 integer_bits) value s (
        declaration_check stream (integer_bits + fraction_bits == t.bits) value s (
          declaration_check stream (leb_ℤ min_units max_units) value s (
            declaration_check stream (fit_format t integer_bits min_units max_units) value s (
              if eq_ℤ min_units max_units
              then serialize_degenerate_fixed value (raw_min fraction_bits min_units) s
              else serialize_raw_fixed value (raw_min fraction_bits min_units)
                  (raw_range fraction_bits min_units max_units) s))))
