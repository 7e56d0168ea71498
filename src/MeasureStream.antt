-- ===== src/MeasureStream.antt =====
-- src/measure_stream.rs: `MeasureStream` and its operations.
pub mod Shared
pub mod Strings
pub mod Fields
pub mod Groups
pub mod Fixed
use serialize_rs.Base.{
  ℕ, ◌+◌, ◌*◌, Bool, true, false, List, ltb, length, if◌then◌else◌, shl, sub_word, add_word,
}
use serialize_rs.Error.{Error}
use serialize_rs.Outcome.{Outcome, ok, err, attempt, assert_then}
use serialize_rs.Stream.{Stream}

pub record MeasureStream : Type 0 where
  pub bits_written : ℕ

abbrev pub new : MeasureStream
new = record { bits_written = 0 }

-- The worst case.
abbrev pub align_bits : MeasureStream → ℕ
align_bits s = 7

pub fail : Error → MeasureStream → Outcome Unit MeasureStream
fail error s = err error tt s

pub gate : MeasureStream → Outcome Unit MeasureStream
gate s = ok tt s

module _ (checked : Bool) where
  unfoldable pub serialize_bits : ℕ → ℕ → MeasureStream → Outcome ℕ MeasureStream
  serialize_bits value bits s = assert_then checked (ltb (sub_word 32 bits 1) 32) (
      assert_then checked (ltb value (shl 64 1 bits))
        (ok value (record { bits_written = add_word 64 s.bits_written bits })))

  unfoldable pub serialize_align : MeasureStream → Outcome Unit MeasureStream
  serialize_align s = ok tt (record { bits_written = add_word 64 s.bits_written (align_bits s) })

  unfoldable pub serialize_bytes : List ℕ → MeasureStream → Outcome (List ℕ) MeasureStream
  unfolding serialize_align
  serialize_bytes src s =
      attempt src (serialize_align s)
        λ _ s1. ok src (record { bits_written = add_word 64 s1.bits_written (length src * 8) })

  unfoldable pub serialize_end : MeasureStream → Outcome Unit MeasureStream
  serialize_end s = ok tt s

  abbrev pub measure_stream : Stream MeasureStream
  measure_stream = record {
    checked = checked;
    is_writing = true;
    is_reading = false;
    fail = fail;
    gate = gate;
    serialize_bits = serialize_bits;
    serialize_bytes = serialize_bytes;
    serialize_align = serialize_align;
    serialize_end = serialize_end;
  }
