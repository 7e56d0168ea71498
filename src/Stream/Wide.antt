-- ===== src/Stream/Wide.antt =====
-- src/stream.rs: `serialize_u128`, `serialize_int128` and the codec of its offset, and the floats
-- as their bit patterns.
use serialize_rs.Base.{
  ℕ, ◌-◌, Bool, ◌&&◌, ◌||◌, not, leb, ◌==◌, if◌then◌else◌, cast, shl, shr, bit_or, bit_and,
  sub_word,
}
use serialize_rs.Base.Int.{ℤ, to_word, leb_ℤ, eq_ℤ}
use serialize_rs.Error.{non_finite_float}
use serialize_rs.Outcome.{Outcome, ok, attempt, assert_then}
use serialize_rs.BitsRequired.{bits_required128}
use serialize_rs.Stream.{Stream, declaration_check, fail_with}
use serialize_rs.Stream.Raw.{serialize_bits64}
use serialize_rs.Stream.Ranged.{serialize_degenerate, decode_offset}

-- The exponent field is not all ones.
abbrev pub float_bits_are_finite : ℕ → Bool
float_bits_are_finite bits = not (bit_and bits 0x7f80_0000 == 0x7f80_0000)

abbrev pub double_bits_are_finite : ℕ → Bool
double_bits_are_finite bits = not (bit_and bits 0x7ff0_0000_0000_0000 == 0x7ff0_0000_0000_0000)

-- The four groups of 32 bits, the first the lowest.
unfoldable pub join_groups : ℕ → ℕ → ℕ → ℕ → ℕ
join_groups group0 group1 group2 group3 =
    bit_or (bit_or (bit_or (shl 128 group3 96) (shl 128 group2 64)) (shl 128 group1 32)) group0

module _ {S : Type 0} (stream : Stream S) where
  open stream use {checked, is_writing, is_reading, serialize_bits}

  unfoldable pub serialize_u128 : ℕ → S → Outcome ℕ S
  unfolding serialize_bits64
  serialize_u128 value s = attempt value (serialize_bits64 stream (cast 64 value) 64 s) λ lo s1.
      attempt value (serialize_bits64 stream (cast 64 (shr 128 value 64)) 64 s1)
        λ hi s2. ok (if is_reading then bit_or (shl 128 hi 64) lo else value) s2

  -- A float is its bit pattern: `to_bits` and `from_bits` do not change it.
  unfoldable pub serialize_f32 : ℕ → S → Outcome ℕ S
  serialize_f32 value s = assert_then checked (not is_writing || float_bits_are_finite value) (
      attempt value (serialize_bits (if is_writing then value else 0) 32 s) λ n s1.
        if is_reading
        then (if float_bits_are_finite n
            then ok n s1
            else fail_with stream non_finite_float value s1)
        else ok value s1)

  unfoldable pub serialize_f64 : ℕ → S → Outcome ℕ S
  unfolding serialize_bits64
  serialize_f64 value s = assert_then checked (not is_writing || double_bits_are_finite value) (
      attempt value (serialize_bits64 stream (if is_writing then value else 0) 64 s) λ n s1.
        if is_reading
        then (if double_bits_are_finite n
            then ok n s1
            else fail_with stream non_finite_float value s1)
        else ok value s1)

  -- The groups that the width needs; `offset` changes on read only.
  unfoldable pub serialize_offset128 : ℕ → ℕ → S → Outcome ℕ S
  unfolding join_groups
  serialize_offset128 offset bits s =
      let group0 = cast 32 offset in
      let group1 = cast 32 (shr 128 offset 32) in
      let group2 = cast 32 (shr 128 offset 64) in
      let group3 = cast 32 (shr 128 offset 96) in
      let joined = λ (g0 g1 g2 g3 : ℕ) (s' : S).
        ok (if is_reading then join_groups g0 g1 g2 g3 else offset) s' in
      assert_then checked (leb 1 bits && leb bits 128) (
        if leb bits 32
        then (attempt offset (serialize_bits group0 bits s)
            λ g0 s1. joined g0 group1 group2 group3 s1)
        else if leb bits 64
        then (attempt offset (serialize_bits group0 32 s) λ g0 s1.
            attempt offset (serialize_bits group1 (bits - 32) s1)
              λ g1 s2. joined g0 g1 group2 group3 s2)
        else if leb bits 96
        then (attempt offset (serialize_bits group0 32 s) λ g0 s1.
            attempt offset (serialize_bits group1 32 s1) λ g1 s2.
              attempt offset (serialize_bits group2 (bits - 64) s2)
                λ g2 s3. joined g0 g1 g2 group3 s3)
        else attempt offset (serialize_bits group0 32 s) λ g0 s1.
          attempt offset (serialize_bits group1 32 s1) λ g1 s2.
            attempt offset (serialize_bits group2 32 s2) λ g2 s3.
              attempt offset (serialize_bits group3 (bits - 96) s3) λ g3 s4. joined g0 g1 g2 g3 s4)

  unfoldable pub serialize_int128 : ℤ → ℤ → ℤ → S → Outcome ℤ S
  unfolding serialize_degenerate decode_offset serialize_offset128
  serialize_int128 value min max s = declaration_check stream (leb_ℤ min max) value s (
      if eq_ℤ min max
      then serialize_degenerate stream value min s
      else let range = sub_word 128 (to_word 128 max) (to_word 128 min) in
        let bits = bits_required128 0 range in
        let offset = if is_writing then sub_word 128 (to_word 128 value) (to_word 128 min) else 0 in
        assert_then checked (not is_writing || leb_ℤ min value) (
          assert_then checked (not is_writing || leb_ℤ value max) (
            attempt value (serialize_offset128 offset bits s)
              λ n s1. decode_offset stream 128 value min range n s1)))
