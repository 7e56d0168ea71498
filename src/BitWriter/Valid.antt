-- ===== src/BitWriter/Valid.antt =====
-- The invariant of `BitWriter` of src/bitpacker.rs, and the number that its bits spell so far.
use serialize_rs.Base.{
  ℕ, ◌+◌, ◌*◌, ◌%◌, ◌^◌, ◌≤◌, ◌<◌, ◌≡◌, ap, arith, List, Option, some, length, take, ◌++◌, ◌∙◌,
  length-take, field_pow_lt,
}
use serialize_rs.Bytes.{IsBytes, le_value, IsBytes-take, le_value-lt, le_value-append}
use serialize_rs.BitWriter.{BitWriter}

-- Between operations: whole words stand in the buffer, and fewer than 64 bits in the scratch.
pub record IsValid (w : BitWriter) : Type 0 where
  pub whole_words : length w.buffer % 8 ≡ 0
  pub size : w.num_bits ≡ 8 * length w.buffer
  pub fits : w.num_bits < 2 ^ 64
  pub index : w.bits_written ≡ 64 * w.word_index + w.scratch_bits
  pub partial : w.scratch_bits < 64
  pub room : w.bits_written ≤ w.num_bits
  pub held : w.scratch < 2 ^ w.scratch_bits
  pub bytes : IsBytes w.buffer

abbrev pub stored : BitWriter → List ℕ
stored w = take (w.word_index * 8) w.buffer

-- The bits written so far, the first the lowest: the stored words, then the scratch.
unfoldable pub written : BitWriter → ℕ
written w = le_value (stored w) + 2 ^ (64 * w.word_index) * w.scratch

module _ {w : BitWriter} (v : IsValid w) where
  pub stored-lt : le_value (stored w) < 2 ^ (64 * w.word_index)
  stored-lt =
      omega (
        arith,
        ap (λ (t : ℕ). 2 ^ t) width,
        le_value-lt (stored w) (IsBytes-take _ w.buffer v.bytes),
      )
    where
      width : 8 * length (stored w) ≡ 64 * w.word_index
      width = omega (arith, v.index, v.room, v.size, length-take (w.word_index * 8) w.buffer)

  -- No bit stands past the last one written.
  pub written-lt : written w < 2 ^ w.bits_written
  unfolding written
  written-lt = omega (
    arith,
    ap (λ (t : ℕ). 2 ^ t) v.index,
    field_pow_lt (64 * w.word_index) w.scratch_bits _ _ stored-lt v.held,
  )

-- Bytes behind the stored words count from the next word on.
pub stored-append :
    (w : BitWriter) (words : List ℕ)
    → w.word_index * 8 ≤ length w.buffer
    → le_value (stored w ++ words) ≡ le_value (stored w) + 2 ^ (64 * w.word_index) * le_value words
stored-append w words room =
    le_value-append (stored w) words
    ∙ ap (λ (t : ℕ). le_value (stored w) + 2 ^ t * le_value words)
        (omega (arith, length-take (w.word_index * 8) w.buffer))

-- `r` is a normal return of a writer that has the `bits` low bits of `value` more than `w` had.
pub record Appends (w : BitWriter) (value bits : ℕ) (r : Option BitWriter) : Type 0 where
  pub out : BitWriter
  pub returns : r ≡ some out
  pub valid : IsValid out
  pub appended : written out ≡ written w + 2 ^ w.bits_written * value
  pub counted : out.bits_written ≡ w.bits_written + bits
  pub same_size : out.num_bits ≡ w.num_bits
