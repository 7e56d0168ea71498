-- ===== src/ReadStream/Strings.antt =====
-- src/read_stream.rs: `serialize_string`.
use serialize_rs.Base.{ℕ, ◌/◌, Bool, List, not, ltb, if◌then◌else◌}
use serialize_rs.Base.Int.{pos, to_word}
use serialize_rs.Error.{past_end, value_out_of_range, embedded_nul, invalid_utf8}
use serialize_rs.Outcome.{Outcome, ok, attempt, enter}
use serialize_rs.BitReader.{read_byte_slice, bits_remaining}
use serialize_rs.Stream.Ranged.{serialize_int}
use serialize_rs.Stream.Strings.{StringStream, longest, is_buffer_size}
use serialize_rs.Text.{has_nul, is_utf8}
use serialize_rs.ReadStream.{ReadStream, latch, read_stream, serialize_align}

-- The two rules on the payload, the NUL first.
unfoldable pub accept_text : List ℕ → List ℕ → ReadStream → Outcome (List ℕ) ReadStream
unfolding latch
accept_text value bytes s =
    if has_nul bytes
    then attempt value (latch embedded_nul s) (λ _ s1. ok value s1)
    else if is_utf8 bytes
    then ok bytes s
    else attempt value (latch invalid_utf8 s) (λ _ s1. ok value s1)

module _ (checked : Bool) where
  -- The payload of `count` bytes, in place.
  unfoldable pub read_payload : List ℕ → ℕ → ReadStream → Outcome (List ℕ) ReadStream
  unfolding latch accept_text
  read_payload value count s =
      if ltb (bits_remaining s.reader / 8) count
      then attempt value (latch past_end s) (λ _ s1. ok value s1)
      else enter (read_byte_slice checked s.reader count)
          λ (bytes, reader). accept_text value bytes (record s { reader = reader })

  unfoldable pub serialize_string : List ℕ → ℕ → ReadStream → Outcome (List ℕ) ReadStream
  unfolding latch serialize_int serialize_align read_payload
  serialize_string value buffer_size s =
      if not (is_buffer_size buffer_size)
      then attempt value (latch value_out_of_range s) (λ _ s1. ok value s1)
      else attempt value
          (serialize_int (read_stream checked) (pos 0) (pos 0) (longest buffer_size) s)
          λ count s1.
            attempt value (serialize_align checked s1)
              λ _ s2. read_payload value (to_word 64 count) s2

  abbrev pub read_strings : StringStream ReadStream
  read_strings = record { stream = read_stream checked; serialize_string = serialize_string }
