-- ===== src/WriteStream/Strings.antt =====
-- src/write_stream.rs: `serialize_string`.
use serialize_rs.Base.{ℕ, ◌-◌, Bool, List, length, cast}
use serialize_rs.Base.Int.{pos}
use serialize_rs.Outcome.{Outcome, ok, attempt, enter, assert_then}
use serialize_rs.BitWriter
use serialize_rs.BitsRequired.{bits_required}
use serialize_rs.Stream.Ranged.{serialize_int}
use serialize_rs.Stream.Strings.{StringStream, longest, string_length}
use serialize_rs.WriteStream.{WriteStream, write_stream, serialize_align, has_room}

module _ (checked : Bool) where
  unfoldable pub serialize_string : List ℕ → ℕ → WriteStream → Outcome (List ℕ) WriteStream
  unfolding serialize_int serialize_align has_room
  serialize_string value buffer_size s = string_length checked value buffer_size λ count.
      assert_then checked
        (has_room s.writer (bits_required 0 (cast 32 buffer_size - 1)) (length value))
        (attempt value (serialize_int (write_stream checked) count (pos 0) (longest buffer_size) s)
          λ _ s1. attempt value (serialize_align checked s1) λ _ s2.
            enter (BitWriter.write_bytes checked s2.writer value)
              λ writer. ok value (record { writer = writer }))

  abbrev pub write_strings : StringStream WriteStream
  write_strings = record { stream = write_stream checked; serialize_string = serialize_string }
