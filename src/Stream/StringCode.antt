-- ===== src/Stream/StringCode.antt =====
-- What a string is on the wire: its length, the padding up to the next byte, its bytes.
use serialize_rs.Base.{
  ℕ, ◌+◌, ◌-◌, ◌*◌, ◌%◌, ◌^◌, ◌≤◌, ◌<◌, ◌≡◌, arith, List, length, cast, sub_word, pow_pos,
  field_pow_lt,
}
use serialize_rs.Base.Int.{pos, span}
use serialize_rs.Bytes.{IsBytes, le_value, le_value-lt}
use serialize_rs.Stream.Code.{ranged_bits, Ranged-lt}
use serialize_rs.Stream.Strings.{longest}

-- The padding behind bit `position`.
abbrev pub pad_bits : ℕ → ℕ
pad_bits position = (8 - position % 8) % 8

abbrev pub length_bits : ℕ → ℕ
length_bits buffer_size = ranged_bits 32 (pos 0) (pos (buffer_size - 1))

abbrev pub string_bits : ℕ → List ℕ → ℕ → ℕ
string_bits buffer_size value position =
    length_bits buffer_size + (pad_bits (position + length_bits buffer_size) + 8 * length value)

abbrev pub string_code : ℕ → List ℕ → ℕ → ℕ
string_code buffer_size value position =
    span 32 (pos 0) (pos (length value))
    + 2 ^ length_bits buffer_size
      * (2 ^ pad_bits (position + length_bits buffer_size) * le_value value)

pub longest_lem :
    (buffer_size : ℕ)
    → 1 ≤ buffer_size
    → buffer_size < 2 ^ 31
    → longest buffer_size ≡ pos (buffer_size - 1)
longest_lem buffer_size lo hi = ground (arith, word)
  where
    word : sub_word 32 (cast 32 buffer_size) 1 ≡ buffer_size - 1
    word = omega arith

-- The padding and the bytes fit in their bits, and a string's code in its.
pub padded-lt :
    (pad : ℕ) (bytes : List ℕ)
    → IsBytes bytes
    → 2 ^ pad * le_value bytes < 2 ^ (pad + 8 * length bytes)
padded-lt pad bytes are_bytes = omega (
  arith,
  field_pow_lt pad (8 * length bytes) 0 (le_value bytes) (pow_pos pad)
      (le_value-lt bytes are_bytes),
)

pub string_code-lt :
    (buffer_size : ℕ) (value : List ℕ) (position : ℕ)
    → IsBytes value
    → length value < buffer_size
    → buffer_size < 2 ^ 31
    → string_code buffer_size value position < 2 ^ string_bits buffer_size value position
string_code-lt buffer_size value position are_bytes fits small =
    let pad = pad_bits (position + length_bits buffer_size) in
    field_pow_lt (length_bits buffer_size) (pad + 8 * length value)
      (span 32 (pos 0) (pos (length value))) (2 ^ pad * le_value value)
      (Ranged-lt 32 (omega arith) (pos 0) (pos (length value)) (pos (buffer_size - 1))
        (omega arith))
      (padded-lt pad value are_bytes)
