-- ===== src/WriteStream/Wide.antt =====
-- About `serialize_u128` and the floats of src/stream.rs on a `WriteStream`.
use serialize_rs.Base.{ℕ, ◌+◌, ◌/◌, ◌%◌, ◌^◌, ◌≤◌, ◌<◌, ◌≡◌, refl, ap, arith, Bool, true, cast, shr}
use serialize_rs.Outcome.{ok, attempt}
use serialize_rs.BitWriter.Valid.{IsValid}
use serialize_rs.Stream.Raw.{serialize_bits64}
use serialize_rs.Stream.Wide.{
  serialize_u128, serialize_f32, serialize_f64, float_bits_are_finite, double_bits_are_finite,
}
use serialize_rs.WriteStream.{WriteStream, write_stream}
use serialize_rs.WriteStream.Writes.{Writes, Writes-as, Writes-attempt, Writes-last}
use serialize_rs.WriteStream.Basic.{serialize_bits-Writes}
use serialize_rs.WriteStream.Shared.{serialize_bits64-Writes}

module _ (checked : Bool) {s : WriteStream} (valid : IsValid s.writer) where
  pub serialize_u128-Writes :
      (value : ℕ)
      → value < 2 ^ 128
      → s.writer.bits_written + 128 ≤ s.writer.num_bits
      → Writes s value value 128 (serialize_u128 (write_stream checked) value s)
  unfolding serialize_u128
  serialize_u128-Writes value small room =
      let low =
        serialize_bits64-Writes checked valid (value % 2 ^ 64) 64 (omega arith) (omega arith)
          (omega arith) (omega arith) in
      let high =
        serialize_bits64-Writes checked low.valid (value / 2 ^ 64) 64 (omega arith) (omega arith)
          (omega arith) (omega (arith, low.counted, low.same_size)) in
      let whole = λ (hi : ℕ) (s2 : WriteStream). ok value s2 in
      let rest = λ (lo : ℕ) (s1 : WriteStream).
        attempt value (serialize_bits64 (write_stream checked) (cast 64 (shr 128 value 64)) 64 s1)
          whole in
      Writes-as
        (Writes-attempt low value rest (
          Writes-as (Writes-last high value whole refl) refl refl (
            ap
              (λ (t : ℕ).
                attempt value (serialize_bits64 (write_stream checked) t 64 low.out) whole)
              top)))
        (omega arith) refl refl
    where
      top : cast 64 (shr 128 value 64) ≡ value / 2 ^ 64
      top = omega arith

  pub serialize_f32-Writes :
      (value : ℕ)
      → value < 2 ^ 32
      → float_bits_are_finite value ≡ true
      → s.writer.bits_written + 32 ≤ s.writer.num_bits
      → Writes s value value 32 (serialize_f32 (write_stream checked) value s)
  unfolding serialize_f32
  serialize_f32-Writes value small finite room =
      let field =
        serialize_bits-Writes checked valid value 32
          (record { wide = omega arith; narrow = omega arith; small = small; space = room }) in
      Writes-as (Writes-last field value (λ n s1. ok value s1) refl) refl refl (rw finite refl)

  pub serialize_f64-Writes :
      (value : ℕ)
      → value < 2 ^ 64
      → double_bits_are_finite value ≡ true
      → s.writer.bits_written + 64 ≤ s.writer.num_bits
      → Writes s value value 64 (serialize_f64 (write_stream checked) value s)
  unfolding serialize_f64
  serialize_f64-Writes value small finite room =
      let field =
        serialize_bits64-Writes checked valid value 64 (omega arith) (omega arith) small room in
      Writes-as (Writes-last field value (λ n s1. ok value s1) refl) refl refl (rw finite refl)
