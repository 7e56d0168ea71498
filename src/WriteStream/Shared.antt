-- ===== src/WriteStream/Shared.antt =====
-- About the shared operations of src/stream.rs on a `WriteStream`: what each puts on the wire.
use serialize_rs.Base.{
  ℕ, ◌+◌, ◌-◌, ◌/◌, ◌%◌, ◌^◌, ◌≤◌, ◌<◌, ◌≡◌, refl, ap, sym, ◌∙◌, arith, Bool, leb, if◌then◌else◌,
  inl, inr, Bool-cases, cast, shl, shr, bit_or, pow_mono,
}
use native.Mathlib.Nat.{mod-eq_of_lt}
use native.Mathlib.Decide.{dec_le}
use serialize_rs.Base.Int.{ℤ, ◌≤ℤ◌, eq_ℤ, IsSigned, span}
use serialize_rs.BitsRequired.{bits_required, bits_required64}
use serialize_rs.Outcome.{ok, attempt}
use serialize_rs.BitWriter.Valid.{IsValid}
use serialize_rs.Stream.{refuse_if_failed}
use serialize_rs.Stream.Raw.{serialize_dwords, serialize_bits64, serialize_bool}
use serialize_rs.Stream.Dwords.{low_dword, high_dword, join_dwords, high_dword-lt}
use serialize_rs.Stream.Ranged.{serialize_degenerate, decode_offset, serialize_int, serialize_int64}
use serialize_rs.Stream.Code.{
  ranged_bits, code-le-range, ranged-IsFewest, degenerate_code, in_range,
}
use serialize_rs.WriteStream.{WriteStream, write_stream, serialize_bits, gate}
use serialize_rs.WriteStream.Writes.{Writes, Writes-none, Writes-as, Writes-attempt, Writes-last}
use serialize_rs.WriteStream.Basic.{serialize_bits-Writes}

module _ (checked : Bool) {s : WriteStream} (valid : IsValid s.writer) where
  pub serialize_degenerate-Writes :
      (v min : ℤ) → Writes s v 0 0 (serialize_degenerate (write_stream checked) v min s)
  unfolding serialize_degenerate refuse_if_failed gate
  serialize_degenerate-Writes v min = Writes-none v valid

  -- A value wider than 32 bits goes as two fields, which are its bits in one.
  serialize_dwords-Writes :
      (value bits : ℕ)
      → 32 < bits
      → bits ≤ 64
      → value < 2 ^ bits
      → s.writer.bits_written + bits ≤ s.writer.num_bits
      → Writes s value value bits (serialize_dwords (write_stream checked) value bits s)
  unfolding serialize_dwords
  serialize_dwords-Writes value bits h k small room =
      let low = serialize_bits-Writes checked valid (value % 2 ^ 32) 32 (record {
        wide = omega arith;
        narrow = omega arith;
        small = omega arith;
        space = omega arith;
      }) in
      let high = serialize_bits-Writes checked low.valid (value / 2 ^ 32) (bits - 32) (record {
        wide = omega arith;
        narrow = omega arith;
        small = high_dword-lt bits value h small;
        space = omega (arith, low.counted, low.same_size);
      }) in
      let join = λ (m : ℕ) (s2 : WriteStream). ok (bit_or (shl 64 m 32) (value % 2 ^ 32)) s2 in
      let rest = λ (n : ℕ) (s1 : WriteStream).
        attempt value (serialize_bits checked (cast 32 (shr 64 value 32)) (bits - 32) s1)
          λ m s2. ok (bit_or (shl 64 m 32) n) s2 in
      Writes-as
        (Writes-attempt low value rest (
          Writes-as (Writes-last high value join (ap (λ (t : ℕ). ok t high.out) joined)) refl refl (
            ap (λ (t : ℕ). attempt value (serialize_bits checked t (bits - 32) low.out) join)
              (high_dword value small_word))))
        (omega arith) (omega arith)
        (ap (λ (t : ℕ). attempt value (serialize_bits checked t 32 s) rest) (low_dword value))
    where
      small_word : value < 2 ^ 64
      small_word = omega (arith, small, bound)
        where
          bound : 2 ^ bits ≤ 2 ^ 64
          bound = pow_mono {b = 64} k

      joined : bit_or (shl 64 (value / 2 ^ 32) 32) (value % 2 ^ 32) ≡ value
      joined =
          join_dwords (value % 2 ^ 32) (value / 2 ^ 32) (omega arith) (omega (arith, small_word))
          ∙ omega arith

  groups-Writes :
      (value bits : ℕ)
      → 1 ≤ bits
      → bits ≤ 64
      → value < 2 ^ bits
      → s.writer.bits_written + bits ≤ s.writer.num_bits
      → Writes s value value bits (
          if leb bits 32
          then serialize_bits checked (cast 32 value) bits s
          else serialize_dwords (write_stream checked) value bits s)
  groups-Writes value bits some_bits k small room = elim (dec_le bits 32) [
    | yes one ↦
        Writes-as
          (serialize_bits-Writes checked valid value bits
            (record { wide = some_bits; narrow = one; small = small; space = room }))
          refl refl (ground (arith, whole one))
    | no two ↦
        Writes-as (serialize_dwords-Writes value bits (omega arith) k small room) refl refl
          (ground arith)
  ]
    where
      whole : bits ≤ 32 → cast 32 value ≡ value
      whole one = mod-eq_of_lt (omega (arith, small, pow_mono {b = 32} one))

  module _ (min v max : ℤ) (lo : min ≤ℤ v) (hi : v ≤ℤ max) where
    -- `serialize_int` on a `WriteStream` with a valid writer, with bounds of `i32`, a value
    -- between them and room for the field, in either build: no panic and no error; the value's
    -- distance from the lower bound is appended, in the number of bits that `bits_required`
    -- gives for the range (none where the bounds are equal); the value is unchanged and the
    -- writer stays valid.
    pub serialize_int-Writes :
        IsSigned 32 min
        → IsSigned 32 v
        → IsSigned 32 max
        → s.writer.bits_written + ranged_bits 32 min max ≤ s.writer.num_bits
        → Writes s v
            (span 32 min v)
            (ranged_bits 32 min max)
            (serialize_int (write_stream checked) v min max s)
    unfolding serialize_int bits_required decode_offset
    serialize_int-Writes fits_min fits_v fits_max room = elim (Bool-cases (eq_ℤ min max)) [
      | inl same ↦
          let (no_code, no_bits) =
            degenerate_code 32 (omega arith) min v max fits_min fits_v fits_max lo hi same in
          Writes-as (serialize_degenerate-Writes v min) (sym no_code) (sym no_bits)
            (ground (arith, same))
      | inr range ↦
          let fewest =
            ranged-IsFewest 32 (omega arith) min v max fits_min fits_v fits_max lo hi range in
          let field =
            serialize_bits-Writes checked valid (span 32 min v) (ranged_bits 32 min max) (record {
              wide = fewest.some_bits;
              narrow = fewest.at_most;
              small = omega (
                arith,
                fewest.enough,
                code-le-range 32 (omega arith) min v max fits_min fits_v fits_max lo hi,
              );
              space = room;
            }) in
          Writes-as (Writes-last field v (λ n s1. ok v s1) refl) refl refl (ground (arith, range))
    ]

    -- `serialize_int64` on a `WriteStream` with a valid writer, with bounds of `i64`, a value
    -- between them and room for the field, in either build: no panic and no error; the value's
    -- distance from the lower bound is appended, in the number of bits that `bits_required64`
    -- gives for the range, in one group or two; the value is unchanged and the writer stays
    -- valid.
    pub serialize_int64-Writes :
        IsSigned 64 min
        → IsSigned 64 v
        → IsSigned 64 max
        → s.writer.bits_written + ranged_bits 64 min max ≤ s.writer.num_bits
        → Writes s v
            (span 64 min v)
            (ranged_bits 64 min max)
            (serialize_int64 (write_stream checked) v min max s)
    unfolding serialize_int64 bits_required64 decode_offset
    serialize_int64-Writes fits_min fits_v fits_max room = elim (Bool-cases (eq_ℤ min max)) [
      | inl same ↦
          let (no_code, no_bits) =
            degenerate_code 64 (omega arith) min v max fits_min fits_v fits_max lo hi same in
          Writes-as (serialize_degenerate-Writes v min) (sym no_code) (sym no_bits)
            (ground (arith, same))
      | inr range ↦
          let fewest =
            ranged-IsFewest 64 (omega arith) min v max fits_min fits_v fits_max lo hi range in
          let field =
            groups-Writes (span 64 min v) (ranged_bits 64 min max) fewest.some_bits fewest.at_most
              (omega (
                arith,
                fewest.enough,
                code-le-range 64 (omega arith) min v max fits_min fits_v fits_max lo hi,
              ))
              room in
          Writes-as (Writes-last field v (λ n s1. ok v s1) refl) refl refl (ground (arith, range))
    ]

  -- `serialize_bits64` on a `WriteStream` with a valid writer, with a width in [1,64], a value
  -- that fits it and room for the field, in either build: no panic and no error; the value is
  -- appended in that many bits, in one group or two; the value is unchanged and the writer stays
  -- valid.
  pub serialize_bits64-Writes :
      (value bits : ℕ)
      → 1 ≤ bits
      → bits ≤ 64
      → value < 2 ^ bits
      → s.writer.bits_written + bits ≤ s.writer.num_bits
      → Writes s value value bits (serialize_bits64 (write_stream checked) value bits s)
  unfolding serialize_bits64
  serialize_bits64-Writes value bits some_bits k small room =
      let field = groups-Writes value bits some_bits k small room in
      Writes-as (Writes-last field value (λ n s1. ok value s1) refl) refl refl
        (elim (dec_le bits 32) [
          | yes one ↦ ground (arith, in_range value bits k small)
          | no two ↦ ground (arith, in_range value bits k small)
        ])

  -- A boolean takes a bit.
  pub serialize_bool-Writes :
      (v : Bool)
      → s.writer.bits_written + 1 ≤ s.writer.num_bits
      → Writes s v (if v then 1 else 0) 1 (serialize_bool (write_stream checked) v s)
  unfolding serialize_bool
  serialize_bool-Writes v room =
      let field =
        serialize_bits-Writes checked valid (if v then 1 else 0) 1 (record {
          wide = omega arith;
          narrow = omega arith;
          small = ground arith;
          space = room;
        }) in
      Writes-as (Writes-last field v (λ n s1. ok v s1) refl) refl refl refl
