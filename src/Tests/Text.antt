-- ===== src/Tests/Text.antt =====
-- Strings and relative integers on concrete streams.
use serialize_rs.Base.{ℕ, ◌≡◌, refl, arith, true, some, List, [], ◌∷◌}
use serialize_rs.Base.Int.{pos}
use serialize_rs.BitsRequired.{bits_required_word}
use serialize_rs.Text.{
  lead, utf8_from, is_utf8, up_to_nul, floor_boundary, is_char_boundary, starts_at,
  serialize_copy_string,
}
use serialize_rs.Text.Boundary.{Carries, serialize_copy_string-Carries}
use serialize_rs.Stream.RelativeCode.{relative_bits, relative_code}
use serialize_rs.Stream.StringCode.{string_bits, string_code}
use serialize_rs.Stream.Relative.{serialize_int_relative}
use serialize_rs.ReadStream.{read_stream}
use serialize_rs.ReadStream.Obligations.{Obeys}
use serialize_rs.ReadStream.Relative.{Above, serialize_int_relative-Obeys}
use serialize_rs.ReadStream.Text.{IsText, serialize_string-Obeys}
use serialize_rs.ReadStream.Strings as ReadStrings
use serialize_rs.WriteStream.{write_stream}
use serialize_rs.WriteStream.Writes.{Writes}
use serialize_rs.WriteStream.Relative.{serialize_int_relative-Writes}
use serialize_rs.WriteStream.Text.{serialize_string-Writes}
use serialize_rs.WriteStream.Strings as WriteStrings
use serialize_rs.Tests.{writer-IsValid, reader-IsValid}
use serialize_rs.Tests

-- "aé", a NUL, "b".
abbrev source : List ℕ
source = 0x61 ∷ 0xc3 ∷ 0xa9 ∷ 0 ∷ 0x62 ∷ []

source-is_utf8 : is_utf8 source ≡ true
unfolding utf8_from lead
source-is_utf8 = refl

-- The copy stops before the character that does not fit, and before the NUL.
short_copy : serialize_copy_string true source 3 ≡ some (0x61 ∷ [])
unfolding serialize_copy_string up_to_nul floor_boundary is_char_boundary starts_at
short_copy = refl

long_copy : serialize_copy_string true source 16 ≡ some (0x61 ∷ 0xc3 ∷ 0xa9 ∷ [])
unfolding serialize_copy_string up_to_nul floor_boundary is_char_boundary starts_at
long_copy = refl

serialize_copy_string-Carries_example :
    (dest : List ℕ) × (serialize_copy_string true source 3 ≡ some dest) × Carries source 3 dest
serialize_copy_string-Carries_example =
    serialize_copy_string-Carries true source 3 source-is_utf8 (omega arith)

serialize_string-Obeys_example :
    Obeys (IsText 8) [] Tests.read_stream (ReadStrings.serialize_string true [] 8 Tests.read_stream)
serialize_string-Obeys_example = serialize_string-Obeys true [] 8 Tests.read_stream reader-IsValid

serialize_int_relative-Obeys_example :
    Obeys
      (Above (pos 41))
      (pos 0)
      Tests.read_stream
      (serialize_int_relative (read_stream true) (pos 41) (pos 0) Tests.read_stream)
serialize_int_relative-Obeys_example =
    serialize_int_relative-Obeys true (pos 41) (pos 0) Tests.read_stream reader-IsValid

serialize_string-Writes_example :
    Writes Tests.write_stream
      (0x61 ∷ [])
      (string_code 8 (0x61 ∷ []) Tests.write_stream.writer.bits_written)
      (string_bits 8 (0x61 ∷ []) Tests.write_stream.writer.bits_written)
      (WriteStrings.serialize_string true (0x61 ∷ []) 8 Tests.write_stream)
unfolding bits_required_word
serialize_string-Writes_example =
    serialize_string-Writes true {s = Tests.write_stream} writer-IsValid (0x61 ∷ []) 8
      (ground arith) refl (omega arith) (omega arith) (omega arith)

serialize_int_relative-Writes_example :
    Writes Tests.write_stream
      (pos 48)
      (relative_code 41 48)
      (relative_bits 41 48)
      (serialize_int_relative (write_stream true) (pos 41) (pos 48) Tests.write_stream)
unfolding bits_required_word
serialize_int_relative-Writes_example =
    serialize_int_relative-Writes true 41 48 (omega arith) (omega arith) {s = Tests.write_stream}
      writer-IsValid (omega arith)
