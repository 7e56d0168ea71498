-- ===== src/ReadStream/Blocks.antt =====
-- About align, bytes and strings of src/read_stream.rs on a stream that stands before their code.
use serialize_rs.Base.{
  ℕ, ◌+◌, ◌-◌, ◌*◌, ◌/◌, ◌%◌, ◌^◌, ◌<◌, ◌≡◌, refl, ap, ◌∙◌, arith, Bool, true, false, some, List,
  length, ltb, le→leb, pow_pos,
}
use native.Mathlib.Nat.{mod-eq_of_lt}
use serialize_rs.Base.Int.{pos, to_word, span}
use serialize_rs.Bytes.{IsBytes, le_value, le_value-injective}
use serialize_rs.Outcome.{ok}
use serialize_rs.BitReader
use serialize_rs.BitReader.{would_read_past_end, bits_remaining, read_align, read_byte_slice}
use serialize_rs.BitReader.Valid.{advance}
use serialize_rs.BitReader.Extract.{read_align_lem}
use serialize_rs.BitReader.Slice.{Slices, read_byte_slice-Slices}
use serialize_rs.Stream.Code.{Ranged-lt}
use serialize_rs.Stream.StringCode.{pad_bits, length_bits, string_bits, string_code, longest_lem}
use serialize_rs.Text.{has_nul, is_utf8}
use serialize_rs.ReadStream.{ReadStream, serialize_align, serialize_bytes, refuses}
use serialize_rs.ReadStream.Strings.{accept_text, read_payload, serialize_string}
use serialize_rs.ReadStream.Sees.{Sees, past, past-past, Sees-as, Sees-low, Sees-high}
use serialize_rs.ReadStream.Decode.{serialize_int-Sees}

word_lem : (n : ℕ) → n < 2 ^ 64 → to_word 64 (pos n) ≡ n
word_lem n small = mod-eq_of_lt small

module _ (checked : Bool) where
  pub serialize_align-Sees :
      {s : ReadStream}
      → Sees s 0 (pad_bits s.reader.bits_read)
      → serialize_align checked s ≡ ok tt (past s (pad_bits s.reader.bits_read))
  unfolding serialize_align refuses would_read_past_end BitReader.align_bits
  serialize_align-Sees {s} seen =
      ground (arith, seen.fresh, seen.room, seen.spelled, (read_align_lem checked seen.valid).0)

  -- The slice at a byte boundary.
  pub slice-Sees :
      {s : ReadStream} (bytes : List ℕ)
      → IsBytes bytes
      → s.reader.bits_read % 8 ≡ 0
      → Sees s (le_value bytes) (8 * length bytes)
      → read_byte_slice checked s.reader (length bytes)
        ≡ some (bytes, advance s.reader (8 * length bytes))
  slice-Sees {s} bytes are_bytes aligned seen =
      let found : Slices s.reader (length bytes) (read_byte_slice checked s.reader (length bytes)) =
        read_byte_slice-Slices checked (length bytes) seen.valid aligned seen.room in
      found.returns
      ∙ ap (λ (xs : List ℕ). some (xs, advance s.reader (8 * length bytes)))
          (le_value-injective found.found bytes found.bytes are_bytes found.width
            (found.value ∙ seen.spelled))

  -- An align, and what then stands at the byte boundary.
  pad-Sees :
      {s : ReadStream} (code bits : ℕ)
      → Sees s (2 ^ pad_bits s.reader.bits_read * code) (pad_bits s.reader.bits_read + bits)
      → Sees s 0 (pad_bits s.reader.bits_read)
        × Sees (past s (pad_bits s.reader.bits_read)) code bits
        × ((s.reader.bits_read + pad_bits s.reader.bits_read) % 8 ≡ 0)
  pad-Sees {s} code bits seen =
      let pad = pad_bits s.reader.bits_read in
      let split = Sees-as (0 + 2 ^ pad * code) (pad + bits) (omega arith) refl seen in
      (
        Sees-low pad bits 0 code (pow_pos pad) split,
        Sees-high pad bits 0 code (pow_pos pad) split,
        omega arith,
      )

  -- So many bytes are left.
  enough-Sees :
      {s : ReadStream} (code count : ℕ)
      → Sees s code (8 * count)
      → ltb (bits_remaining s.reader / 8) count ≡ false
  unfolding bits_remaining
  enough-Sees code count seen = ground (arith, seen.room, seen.valid)

  pub serialize_bytes-Sees :
      {s : ReadStream} (dest bytes : List ℕ)
      → IsBytes bytes
      → length dest ≡ length bytes
      → Sees s
          (2 ^ pad_bits s.reader.bits_read * le_value bytes)
          (pad_bits s.reader.bits_read + 8 * length bytes)
      → serialize_bytes checked dest s
        ≡ ok bytes (past s (pad_bits s.reader.bits_read + 8 * length bytes))
  unfolding serialize_bytes
  serialize_bytes-Sees {s} dest bytes are_bytes same seen =
      let pad = pad_bits s.reader.bits_read in
      let (low, high, aligned) = pad-Sees (le_value bytes) (8 * length bytes) seen in
      rw
        (
          serialize_align-Sees low,
          ap (λ (n : ℕ). ltb (bits_remaining (past s pad).reader / 8) n) same
              ∙ enough-Sees (le_value bytes) (length bytes) high,
          ap (read_byte_slice checked (past s pad).reader) same
              ∙ slice-Sees bytes are_bytes aligned high,
        )
        (past-past bytes s pad (8 * length bytes))

  read_payload-Sees :
      {s : ReadStream} (dest bytes : List ℕ)
      → IsBytes bytes
      → has_nul bytes ≡ false
      → is_utf8 bytes ≡ true
      → s.reader.bits_read % 8 ≡ 0
      → Sees s (le_value bytes) (8 * length bytes)
      → read_payload checked dest (length bytes) s ≡ ok bytes (past s (8 * length bytes))
  unfolding read_payload accept_text
  read_payload-Sees {s} dest bytes are_bytes no_nul well_formed aligned seen =
      rw
        (
          enough-Sees (le_value bytes) (length bytes) seen,
          slice-Sees bytes are_bytes aligned seen,
          no_nul,
          well_formed,
        )
        refl

  pub serialize_string-Sees :
      {s : ReadStream} (dest value : List ℕ) (buffer_size : ℕ)
      → IsBytes value
      → has_nul value ≡ false
      → is_utf8 value ≡ true
      → length value < buffer_size
      → buffer_size < 2 ^ 31
      → Sees s
          (string_code buffer_size value s.reader.bits_read)
          (string_bits buffer_size value s.reader.bits_read)
      → serialize_string checked dest buffer_size s
        ≡ ok value (past s (string_bits buffer_size value s.reader.bits_read))
  unfolding serialize_string
  serialize_string-Sees {s} dest value buffer_size are_bytes no_nul well_formed fits small seen =
      let coded =
        Ranged-lt 32 (omega arith) (pos 0) (pos (length value)) (pos (buffer_size - 1))
          (omega arith) in
      let count =
        Sees-low (length_bits buffer_size) _ (span 32 (pos 0) (pos (length value))) _ coded seen in
      let rest =
        Sees-high (length_bits buffer_size) _ (span 32 (pos 0) (pos (length value))) _ coded seen in
      let (low, high, aligned) = pad-Sees (le_value value) (8 * length value) rest in
      rw
        (
          le→leb 1 buffer_size (omega arith),
          le→leb buffer_size 2147483647 (omega arith),
          longest_lem buffer_size (omega arith) small,
          serialize_int-Sees checked (pos 0) (pos 0) (pos (length value)) (pos (buffer_size - 1))
              (omega arith) (omega arith) (omega arith) (omega arith) (omega arith) count,
          serialize_align-Sees low,
          word_lem (length value) (omega arith),
          read_payload-Sees dest value are_bytes no_nul well_formed aligned high,
        )
        (ap (λ (t : ℕ). ok value (record s { reader = record (s.reader) { bits_read = t } }))
          (omega arith))
