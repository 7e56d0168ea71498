-- ===== src/MeasureStream/Strings.antt =====
-- src/measure_stream.rs: `serialize_string`.
use serialize_rs.Base.{ℕ, ◌*◌, Bool, List, length, add_word}
use serialize_rs.Base.Int.{pos}
use serialize_rs.Outcome.{Outcome, ok, attempt}
use serialize_rs.Stream.Ranged.{serialize_int}
use serialize_rs.Stream.Strings.{StringStream, longest, string_length}
use serialize_rs.MeasureStream.{MeasureStream, measure_stream, serialize_align}

module _ (checked : Bool) where
  unfoldable pub serialize_string : List ℕ → ℕ → MeasureStream → Outcome (List ℕ) MeasureStream
  unfolding serialize_int serialize_align
  serialize_string value buffer_size s = string_length checked value buffer_size λ count.
      attempt value (serialize_int (measure_stream checked) count (pos 0) (longest buffer_size) s)
        λ _ s1. attempt value (serialize_align checked s1) λ _ s2.
          ok value (record { bits_written = add_word 64 s2.bits_written (length value * 8) })

  abbrev pub measure_strings : StringStream MeasureStream
  measure_strings = record { stream = measure_stream checked; serialize_string = serialize_string }
