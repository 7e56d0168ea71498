-- ===== src/Stream/Ranged.antt =====
-- src/stream.rs: the ranged integers.
use serialize_rs.Base.{ℕ, ◌||◌, not, ltb, leb, if◌then◌else◌, cast, sub_word, add_word}
use serialize_rs.Base.Int.{ℤ, to_word, of_word, leb_ℤ, eq_ℤ}
use serialize_rs.Error.{value_out_of_range}
use serialize_rs.Outcome.{Outcome, ok, attempt, assert_then}
use serialize_rs.BitsRequired.{bits_required, bits_required64}
use serialize_rs.Stream.{Stream, declaration_check, fail_with, refuse_if_failed}
use serialize_rs.Stream.Raw.{serialize_dwords}

module _ {S : Type 0} (stream : Stream S) where
  open stream use {checked, is_writing, is_reading, serialize_bits}

  -- `min == max`: no bits, behind the failure gate.
  unfoldable pub serialize_degenerate : ℤ → ℤ → S → Outcome ℤ S
  unfolding refuse_if_failed
  serialize_degenerate value min s =
      attempt value (refuse_if_failed stream s) (λ _ s1. ok (if is_reading then min else value) s1)

  -- The decoded offset: refused past the range, else added to `min` in the unsigned domain.
  unfoldable pub decode_offset : ℕ → ℤ → ℤ → ℕ → ℕ → S → Outcome ℤ S
  decode_offset w value min range offset s =
      if is_reading
      then (if ltb range offset
          then fail_with stream value_out_of_range value s
          else ok (of_word w (add_word w offset (to_word w min))) s)
      else ok value s

  unfoldable pub serialize_int : ℤ → ℤ → ℤ → S → Outcome ℤ S
  unfolding serialize_degenerate decode_offset
  serialize_int value min max s = declaration_check stream (leb_ℤ min max) value s (
      if eq_ℤ min max
      then serialize_degenerate value min s
      else let range = sub_word 32 (to_word 32 max) (to_word 32 min) in
        let bits = bits_required 0 range in
        let unsigned_value =
          if is_writing then sub_word 32 (to_word 32 value) (to_word 32 min) else 0 in
        assert_then checked (not is_writing || leb_ℤ min value) (
          assert_then checked (not is_writing || leb_ℤ value max) (
            attempt value (serialize_bits unsigned_value bits s)
              λ n s1. decode_offset 32 value min range n s1)))

  unfoldable pub serialize_int64 : ℤ → ℤ → ℤ → S → Outcome ℤ S
  unfolding serialize_degenerate decode_offset serialize_dwords
  serialize_int64 value min max s = declaration_check stream (leb_ℤ min max) value s (
      if eq_ℤ min max
      then serialize_degenerate value min s
      else let range = sub_word 64 (to_word 64 max) (to_word 64 min) in
        let bits = bits_required64 0 range in
        let unsigned_value =
          if is_writing then sub_word 64 (to_word 64 value) (to_word 64 min) else 0 in
        assert_then checked (not is_writing || leb_ℤ min value) (
          assert_then checked (not is_writing || leb_ℤ value max) (
            attempt value
              (if leb bits 32
                then serialize_bits (cast 32 unsigned_value) bits s
                else serialize_dwords stream unsigned_value bits s)
              λ n s1. decode_offset 64 value min range n s1)))
