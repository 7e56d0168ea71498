-- ===== src/ReadStream/WideDecode.antt =====
-- About `serialize_u128` and the floats of src/stream.rs on a `ReadStream` that stands before a
-- value's code.
use serialize_rs.Base.{
  ℕ, ◌+◌, ◌*◌, ◌/◌, ◌%◌, ◌^◌, ◌<◌, ◌≡◌, refl, ap, ◌∙◌, arith, Bool, true, shl, bit_or, bit_or_below,
}
use serialize_rs.Outcome.{ok}
use serialize_rs.Stream.Wide.{
  serialize_u128, serialize_f32, serialize_f64, float_bits_are_finite, double_bits_are_finite,
}
use serialize_rs.ReadStream.{ReadStream, read_stream}
use serialize_rs.ReadStream.Sees.{Sees, past, Sees-as, Sees-low, Sees-high, serialize_bits-Sees}
use serialize_rs.ReadStream.Decode.{serialize_bits64-Sees}

module _ (checked : Bool) {s : ReadStream} where
  pub serialize_u128-Sees :
      (dest code : ℕ)
      → code < 2 ^ 128
      → Sees s code 128
      → serialize_u128 (read_stream checked) dest s ≡ ok code (past s 128)
  unfolding serialize_u128
  serialize_u128-Sees dest code small seen =
      let split =
        Sees-as (code % 2 ^ 64 + 2 ^ 64 * (code / 2 ^ 64)) (64 + 64) (omega arith) refl seen in
      let low = Sees-low 64 64 (code % 2 ^ 64) (code / 2 ^ 64) (omega arith) split in
      let high = Sees-high 64 64 (code % 2 ^ 64) (code / 2 ^ 64) (omega arith) split in
      rw
        (
          serialize_bits64-Sees checked _ (code % 2 ^ 64) 64 (omega arith) (omega arith)
              (omega arith) low,
          serialize_bits64-Sees checked _ (code / 2 ^ 64) 64 (omega arith) (omega arith)
              (omega arith) high,
        )
        (ap (λ (t : ℕ). ok t (past (past s 64) 64)) joined
          ∙ ap (λ (t : ℕ). ok code (record s { reader = record (s.reader) { bits_read = t } }))
              whole)
    where
      whole : s.reader.bits_read + 64 + 64 ≡ s.reader.bits_read + 128
      whole = omega arith

      shifted : shl 128 (code / 2 ^ 64) 64 ≡ 2 ^ 64 * (code / 2 ^ 64)
      shifted = omega arith

      joined : bit_or (shl 128 (code / 2 ^ 64) 64) (code % 2 ^ 64) ≡ code
      joined = omega (
        arith,
        ap (λ (t : ℕ). bit_or t (code % 2 ^ 64)) shifted,
        bit_or_below 64 (code / 2 ^ 64) (code % 2 ^ 64) (omega arith),
      )

  pub serialize_f32-Sees :
      (dest code : ℕ)
      → float_bits_are_finite code ≡ true
      → Sees s code 32
      → serialize_f32 (read_stream checked) dest s ≡ ok code (past s 32)
  unfolding serialize_f32
  serialize_f32-Sees dest code finite seen =
      rw (serialize_bits-Sees checked 0 code 32 (omega arith) (omega arith) seen, finite) refl

  pub serialize_f64-Sees :
      (dest code : ℕ)
      → code < 2 ^ 64
      → double_bits_are_finite code ≡ true
      → Sees s code 64
      → serialize_f64 (read_stream checked) dest s ≡ ok code (past s 64)
  unfolding serialize_f64
  serialize_f64-Sees dest code small finite seen =
      rw (serialize_bits64-Sees checked 0 code 64 (omega arith) (omega arith) small seen, finite)
        refl
