-- ===== src/WriteStream/Text.antt =====
-- About `serialize_string` of src/write_stream.rs.
use serialize_rs.Base.{
  ℕ, ◌+◌, ◌-◌, ◌*◌, ◌^◌, ◌≤◌, ◌<◌, ◌≡◌, refl, ap, ap₂, ◌∙◌, arith, Bool, true, false, List, length,
  le→leb, lt→ltb, cast,
}
use native.Mathlib.Nat.{mod-eq_of_lt}
use serialize_rs.Base.Int.{ℤ, pos, of_word, span, span_lem}
use serialize_rs.Bytes.{IsBytes, le_value}
use serialize_rs.Outcome.{ok, attempt, enter}
use serialize_rs.BitsRequired.{bits_required, bits_required_word}
use serialize_rs.BitWriter
use serialize_rs.BitWriter.{bits_available}
use serialize_rs.BitWriter.Valid.{IsValid}
use serialize_rs.BitWriter.Block.{write_bytes-Appends}
use serialize_rs.Stream.Ranged.{serialize_int}
use serialize_rs.Stream.StringCode.{pad_bits, length_bits, string_bits, string_code, longest_lem}
use serialize_rs.Text.{has_nul}
use serialize_rs.WriteStream.{WriteStream, write_stream, serialize_align, has_room}
use serialize_rs.WriteStream.Strings.{serialize_string}
use serialize_rs.WriteStream.Writes.{Writes, Writes-enter, Writes-as, Writes-attempt}
use serialize_rs.WriteStream.Basic.{serialize_align-Writes}
use serialize_rs.WriteStream.Shared.{serialize_int-Writes}
use serialize_rs.WriteStream.Relative.{small_of_word}

module _ (checked : Bool) {s : WriteStream} (valid : IsValid s.writer) (value : List ℕ)
    (are_bytes : IsBytes value) where
  -- The padding, then the bytes.
  payload-Writes :
      s.writer.bits_written + pad_bits s.writer.bits_written + 8 * length value ≤ s.writer.num_bits
      → Writes s value
          (2 ^ pad_bits s.writer.bits_written * le_value value)
          (pad_bits s.writer.bits_written + 8 * length value)
          (attempt value (serialize_align checked s) λ _ s1.
            enter
              (BitWriter.write_bytes checked s1.writer value)
              λ writer. ok value (record { writer = writer }))
  unfolding BitWriter.align_bits
  payload-Writes room =
      let pad = serialize_align-Writes checked valid in
      let body : Writes pad.out value (le_value value) (8 * length value) (
          enter (BitWriter.write_bytes checked pad.out.writer value)
            λ writer. ok value (record { writer = writer })) =
        Writes-enter value (
          write_bytes-Appends checked pad.valid value (omega (arith, pad.counted)) are_bytes
            (omega (arith, pad.counted, pad.same_size))) in
      Writes-as
        (Writes-attempt pad value
          (λ _ s1.
            enter (BitWriter.write_bytes checked s1.writer value)
              λ writer. ok value (record { writer = writer }))
          body)
        (omega arith) refl refl

has_room_lem :
    {s : WriteStream} (field_bits payload : ℕ)
    → IsValid s.writer
    → s.writer.bits_written
        + (field_bits + (pad_bits (s.writer.bits_written + field_bits) + 8 * payload))
      ≤ s.writer.num_bits
    → has_room s.writer field_bits payload ≡ true
unfolding has_room bits_available
has_room_lem {s} field_bits payload valid room = ground arith

module _ (checked : Bool) {s : WriteStream} (valid : IsValid s.writer) (value : List ℕ)
    (buffer_size : ℕ) where
  -- `WriteStream::serialize_string` with a valid writer, bytes without NUL, fewer than a buffer
  -- size below 2^31, and room for the field, in either build: no panic and no error; the length
  -- is appended in the bits of its range, then zero bits up to the next byte boundary, then the
  -- bytes in order; the value is unchanged and the writer stays valid.
  pub serialize_string-Writes :
      IsBytes value
      → has_nul value ≡ false
      → length value < buffer_size
      → buffer_size < 2 ^ 31
      → s.writer.bits_written + string_bits buffer_size value s.writer.bits_written
        ≤ s.writer.num_bits
      → Writes s value
          (string_code buffer_size value s.writer.bits_written)
          (string_bits buffer_size value s.writer.bits_written)
          (serialize_string checked value buffer_size s)
  unfolding serialize_string
  serialize_string-Writes are_bytes no_nul fits small room =
      let count =
        serialize_int-Writes checked valid (pos 0) (pos (length value)) (pos (buffer_size - 1))
          (omega arith) (omega arith) (omega arith) (omega arith) (omega arith) (omega arith) in
      let rest = λ (n : ℤ) (s1 : WriteStream). attempt value (serialize_align checked s1) λ _ s2.
        enter (BitWriter.write_bytes checked s2.writer value)
          λ writer. ok value (record { writer = writer }) in
      let payload =
        payload-Writes checked count.valid value are_bytes
          (omega (arith, count.counted, count.same_size, ap pad_bits count.counted)) in
      Writes-as (Writes-attempt count value rest payload)
        (ap
          (λ (q : ℕ).
            span 32 (pos 0) (pos (length value))
            + 2 ^ length_bits buffer_size * (2 ^ pad_bits q * le_value value))
          count.counted)
        (ap (λ (q : ℕ). length_bits buffer_size + (pad_bits q + 8 * length value)) count.counted)
        (rw
          (
            le→leb 1 buffer_size (omega arith),
            le→leb buffer_size 2147483647 (omega arith),
            lt→ltb (length value) buffer_size fits,
            no_nul,
            fitting (omega arith) room,
          )
          (ap₂ (λ a b. attempt value (serialize_int (write_stream checked) a (pos 0) b s) rest)
            width (longest_lem buffer_size (omega arith) small)))
    where
      width : of_word 32 (cast 32 (length value)) ≡ pos (length value)
      width =
          ap (of_word 32) (mod-eq_of_lt (omega arith)) ∙ small_of_word (length value) (omega arith)

      fitting :
          1 ≤ buffer_size
          → s.writer.bits_written + string_bits buffer_size value s.writer.bits_written
            ≤ s.writer.num_bits
          → has_room s.writer (bits_required 0 (cast 32 buffer_size - 1)) (length value) ≡ true
      fitting some_size room =
          ap (λ (n : ℕ). has_room s.writer n (length value)) same
          ∙ has_room_lem (length_bits buffer_size) (length value) valid (omega arith)
        where
          same : bits_required 0 (cast 32 buffer_size - 1) ≡ length_bits buffer_size
          same =
              unfold bits_required in
              ap (bits_required_word 32 0) (
                omega (
                  arith,
                  span_lem 32 (omega arith) (pos 0) (pos (buffer_size - 1)) (omega arith)
                      (omega arith) (omega arith),
                ))
