-- ===== src/WriteStream.antt =====
-- src/write_stream.rs: `WriteStream` and its operations.
pub mod Writes
pub mod Basic
pub mod Shared
pub mod Twins
pub mod Strings
pub mod Wide
pub mod Groups
pub mod Fixed
pub mod Text
pub mod Relative
use serialize_rs.Base.{
  ℕ, ◌+◌, ◌-◌, ◌*◌, ◌%◌, Bool, true, false, Option, none, some, List, leb, length, if◌then◌else◌,
}
use serialize_rs.Base.Int.{ℤ}
use serialize_rs.Error.{Error}
use serialize_rs.Outcome.{Outcome, ok, err, panic, attempt, enter, assert_then}
use serialize_rs.Panic.{◌>>=◌, ◌>>◌, debug_assert}
use serialize_rs.BitWriter
use serialize_rs.BitWriter.{BitWriter, bits_available}
use serialize_rs.Stream.{Stream}
use serialize_rs.Stream.Ranged
use serialize_rs.Stream.Raw

pub record WriteStream : Type 0 where
  pub writer : BitWriter

unfoldable pub new : Bool → List ℕ → Option WriteStream
new checked buffer = do writer ← BitWriter.new checked buffer; some (record { writer = writer })

unfoldable pub flush : Bool → WriteStream → Option WriteStream
flush checked s = do
  writer ← BitWriter.flush_bits checked s.writer
  some (record { writer = writer })

-- `data`.
unfoldable pub written_data : WriteStream → List ℕ
written_data s = BitWriter.data_slice s.writer

-- What a write puts down needs at most the bits available: the field, its align, the payload.
pub has_room : BitWriter → ℕ → ℕ → Bool
has_room writer field_bits payload =
    let after_field = writer.bits_written + field_bits in
    let align = (8 - after_field % 8) % 8 in
    leb (field_bits + align + payload * 8) (bits_available writer)

unfoldable pub fail : Error → WriteStream → Outcome Unit WriteStream
fail error s = err error tt s

unfoldable pub gate : WriteStream → Outcome Unit WriteStream
gate s = ok tt s

module _ (checked : Bool) where
  unfoldable pub serialize_bits : ℕ → ℕ → WriteStream → Outcome ℕ WriteStream
  serialize_bits value bits s =
      enter (BitWriter.write_bits checked s.writer value bits)
        λ writer. ok value (record { writer = writer })

  unfoldable pub serialize_align : WriteStream → Outcome Unit WriteStream
  serialize_align s =
      enter (BitWriter.write_align checked s.writer) λ writer. ok tt (record { writer = writer })

  unfoldable pub serialize_bytes : List ℕ → WriteStream → Outcome (List ℕ) WriteStream
  unfolding serialize_align has_room
  serialize_bytes src s = assert_then checked (has_room s.writer 0 (length src)) (
      attempt src (serialize_align s) λ _ s1.
        enter (BitWriter.write_bytes checked s1.writer src)
          λ writer. ok src (record { writer = writer }))

  unfoldable pub serialize_end : WriteStream → Outcome Unit WriteStream
  serialize_end s = ok tt s

  abbrev pub write_stream : Stream WriteStream
  write_stream = record {
    checked = checked;
    is_writing = true;
    is_reading = false;
    fail = fail;
    gate = gate;
    serialize_bits = serialize_bits;
    serialize_bytes = serialize_bytes;
    serialize_align = serialize_align;
    serialize_end = serialize_end;
  }
