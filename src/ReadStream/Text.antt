-- ===== src/ReadStream/Text.antt =====
-- About `serialize_string` of src/read_stream.rs, over any bytes.
use serialize_rs.Base.{
  ℕ, ◌+◌, ◌-◌, ◌*◌, ◌/◌, ◌%◌, ◌≤◌, ◌<◌, ◌≡◌, arith, Bool, true, false, none, List, length, ltb, inl,
  inr, Bool-cases,
}
use serialize_rs.Base.Int.{ℤ, pos, negsuc, ◌≤ℤ◌, to_word}
use serialize_rs.Bytes.{IsBytes}
use serialize_rs.Error.{past_end, value_out_of_range, embedded_nul, invalid_utf8}
use serialize_rs.BitReader.{read_byte_slice, bits_remaining}
use serialize_rs.BitReader.Valid.{IsValid, advance}
use serialize_rs.BitReader.Slice.{Slices, read_byte_slice-Slices}
use serialize_rs.Stream.Strings.{is_buffer_size}
use serialize_rs.Stream.StringCode.{longest_lem}
use serialize_rs.Text.{has_nul, is_utf8}
use serialize_rs.ReadStream.{ReadStream}
use serialize_rs.ReadStream.Strings.{accept_text, read_payload, serialize_string}
use serialize_rs.ReadStream.Obligations.{Obeys, Obeys-after, Obeys-attempt}
use serialize_rs.ReadStream.Basic.{moved, refusing, serialize_align-Obeys}
use serialize_rs.ReadStream.Raw.{accepting}
use serialize_rs.ReadStream.Ranged.{Between, serialize_int-Obeys}

-- A text that a buffer of `buffer_size` bytes holds with its NUL.
abbrev pub IsText : ℕ → List ℕ → ReadStream → Type 0
IsText buffer_size v _ =
    IsBytes v × (has_nul v ≡ false) × (is_utf8 v ≡ true) × (length v < buffer_size)

-- The length that was read, as a `usize`.
word-lt :
    {buffer_size : ℕ} (count : ℤ)
    → 1 ≤ buffer_size
    → pos 0 ≤ℤ count
    → count ≤ℤ pos (buffer_size - 1)
    → to_word 64 count < buffer_size
word-lt (pos n) some_size lo hi = omega arith
word-lt (negsuc n) some_size lo hi = absurd (omega arith)

module _ (checked : Bool) (dest : List ℕ) (buffer_size : ℕ) where
  accept_text-Obeys :
      (bytes : List ℕ) (s : ReadStream)
      → IsBytes bytes
      → length bytes < buffer_size
      → IsValid s.reader
      → s.failed ≡ none
      → Obeys (IsText buffer_size) dest s (accept_text dest bytes s)
  unfolding accept_text
  accept_text-Obeys bytes s are_bytes fits valid fresh = elim (Bool-cases (has_nul bytes)) [
    | inl nul ↦ rw nul (refusing (IsText buffer_size) dest embedded_nul s valid)
    | inr no_nul ↦ elim (Bool-cases (is_utf8 bytes)) [
      | inl well_formed ↦
          rw (no_nul, well_formed)
            (accepting (IsText buffer_size) dest bytes s valid fresh
              (are_bytes, no_nul, well_formed, fits))
      | inr ill_formed ↦
          rw (no_nul, ill_formed) (refusing (IsText buffer_size) dest invalid_utf8 s valid)
    ]
  ]

  enough :
      (s : ReadStream) (count : ℕ)
      → IsValid s.reader
      → ltb (bits_remaining s.reader / 8) count ≡ false
      → s.reader.bits_read + 8 * count ≤ s.reader.num_bits
  unfolding bits_remaining
  enough s count valid long = ground arith

  read_payload-Obeys :
      (count : ℕ) (s : ReadStream)
      → count < buffer_size
      → s.reader.bits_read % 8 ≡ 0
      → IsValid s.reader
      → s.failed ≡ none
      → Obeys (IsText buffer_size) dest s (read_payload checked dest count s)
  unfolding read_payload
  read_payload-Obeys count s fits aligned valid fresh =
      elim (Bool-cases (ltb (bits_remaining s.reader / 8) count)) [
        | inl short ↦ rw short (refusing (IsText buffer_size) dest past_end s valid)
        | inr long ↦
            let room = enough s count valid long in
            let found : Slices s.reader count (read_byte_slice checked s.reader count) =
              read_byte_slice-Slices checked count valid aligned room in
            let s1 = record s { reader = advance s.reader (8 * count) } in
            rw (long, found.returns)
              (Obeys-after (IsText buffer_size) dest s s1 (accept_text dest found.found s1) fresh
                (moved (8 * count) valid room)
                (accept_text-Obeys found.found s1 found.bytes (omega (arith, found.width))
                  found.valid fresh))
      ]

  -- `ReadStream::serialize_string` with a valid reader and any buffer size, right or wrong, in
  -- either build: no panic; what is accepted are bytes that are well-formed UTF-8, with no NUL
  -- among them, fewer than the buffer size, from a stream that had not failed; a refusal, at the
  -- length, the padding, the payload or its text, leaves the destination as it was and latches
  -- the error returned; a stream that had failed refuses for its first reason and does not
  -- change; the reader stays valid over the same packet and never moves back.
  pub serialize_string-Obeys :
      (s : ReadStream)
      → IsValid s.reader
      → Obeys (IsText buffer_size) dest s (serialize_string checked dest buffer_size s)
  unfolding serialize_string
  serialize_string-Obeys s valid = elim (Bool-cases (is_buffer_size buffer_size)) [
    | inr wrong ↦ rw wrong (refusing (IsText buffer_size) dest value_out_of_range s valid)
    | inl sized ↦
        rw (sized, longest_lem buffer_size (ground (arith, sized)) (ground (arith, sized)))
          (Obeys-attempt (Between (pos 0) (pos (buffer_size - 1))) (IsText buffer_size) dest (pos 0)
            s _ _
            (serialize_int-Obeys checked (pos 0) (pos 0) (pos (buffer_size - 1)) s (omega arith)
              (ground (arith, sized)) valid)
            λ count s1 in_range valid1 fresh1.
              Obeys-attempt (λ _ s'. s'.reader.bits_read % 8 ≡ 0) (IsText buffer_size) dest tt s1 _
                _ (serialize_align-Obeys checked s1 valid1)
                λ _ s2 aligned valid2 fresh2.
                  read_payload-Obeys (to_word 64 count) s2
                    (word-lt count (ground (arith, sized)) in_range.0 in_range.1) aligned valid2
                    fresh2)
  ]
