-- ===== src/BitWriter.antt =====
-- src/bitpacker.rs, `BitWriter`: its state and its operations.
pub mod Valid
mod Scratch
pub mod Append
pub mod Chain
pub mod Align
pub mod Block
pub mod Flush
pub mod Refinement
use serialize_rs.Base.{
  ℕ, ◌+◌, ◌-◌, ◌*◌, ◌/◌, ◌%◌, Bool, ◌&&◌, Option, some, List, [], ◌∷◌, ltb, leb, ◌==◌,
  if◌then◌else◌, length, take, drop, bit_or, cast, add_word, sub_word, shl, shr,
}
use serialize_rs.Bytes.{to_le_bytes, copy_from_slice}
use serialize_rs.Panic.{◌>>=◌, ◌>>◌, debug_assert}

pub record BitWriter : Type 0 where
  pub buffer : List ℕ
  pub scratch : ℕ
  pub num_bits : ℕ
  pub bits_written : ℕ
  pub word_index : ℕ
  pub scratch_bits : ℕ

pub new : Bool → List ℕ → Option BitWriter
new checked buffer = do
  debug_assert checked (length buffer % 8 == 0)
  some (record {
    buffer = buffer;
    scratch = 0;
    num_bits = cast 64 (length buffer * 8);
    bits_written = 0;
    word_index = 0;
    scratch_bits = 0;
  })

-- The word in `scratch` goes to the buffer, at `word_index`.
pub store_word : BitWriter → ℕ → Option (List ℕ)
store_word w word = copy_from_slice w.buffer (w.word_index * 8) (to_le_bytes 8 word)

pub write_bits : Bool → BitWriter → ℕ → ℕ → Option BitWriter
write_bits checked w value bits = do
  debug_assert checked (ltb (sub_word 32 bits 1) 32)
  debug_assert checked (leb (w.bits_written + bits) w.num_bits)
  debug_assert checked (ltb value (shl 64 1 bits))
  let scratch = bit_or w.scratch (shl 64 value w.scratch_bits)
  let new_scratch_bits = add_word 32 w.scratch_bits bits
  if leb 64 new_scratch_bits
      then (do
        buffer ← store_word w scratch
        some (record w {
          buffer = buffer;
          scratch = shr 64 value (sub_word 32 64 w.scratch_bits);
          bits_written = add_word 64 w.bits_written bits;
          word_index = w.word_index + 1;
          scratch_bits = new_scratch_bits - 64;
        }))
      else some (record w {
        scratch = scratch;
        bits_written = add_word 64 w.bits_written bits;
        scratch_bits = new_scratch_bits;
      })

unfoldable pub align_bits : BitWriter → ℕ
align_bits w = (8 - w.bits_written % 8) % 8

unfoldable pub bits_available : BitWriter → ℕ
bits_available w = sub_word 64 w.num_bits w.bits_written

unfoldable pub bytes_written : BitWriter → ℕ
bytes_written w = (w.bits_written + 7) / 8

pub write_align : Bool → BitWriter → Option BitWriter
write_align checked w =
    let remainder_bits = w.bits_written % 8 in
    let pad = (do
      w' ← write_bits checked w 0 (8 - remainder_bits)
      debug_assert checked (w'.bits_written % 8 == 0)
      some w') in
    if remainder_bits == 0 then some w else pad

-- `for &byte in data { self.write_bits(byte, 8) }`
pub write_each : Bool → BitWriter → List ℕ → Option BitWriter
write_each checked w [] = some w
write_each checked w (byte ∷ rest) = do w' ← write_bits checked w byte 8; write_each checked w' rest

-- The head: the bytes up to the next word boundary, at most all of them.
pub head_bytes : BitWriter → ℕ → ℕ
head_bytes w bytes =
    let head = (8 - w.bits_written % 64 / 8) % 8 in if ltb bytes head then bytes else head

-- The whole words of `words`, copied without the scratch.
pub copy_words : BitWriter → ℕ → List ℕ → Option BitWriter
copy_words w num_words words =
    if ltb 0 num_words
    then (do
      buffer ← copy_from_slice w.buffer (w.word_index * 8) words
      some (record w {
        buffer = buffer;
        scratch = 0;
        bits_written = add_word 64 w.bits_written (num_words * 64);
        word_index = w.word_index + num_words;
      }))
    else some w

-- What follows the head: the whole words, then the tail byte by byte.
pub write_rest : Bool → List ℕ → ℕ → BitWriter → Option BitWriter
write_rest checked src head w1 = do
  debug_assert checked (w1.bits_written % 64 == 0 && w1.scratch_bits == 0)
  let num_words = (length src - head) / 8
  w2 ← copy_words w1 num_words (take (num_words * 8) (drop head src))
  w3 ← write_each checked w2 (drop (head + num_words * 8) src)
  debug_assert checked (align_bits w3 == 0)
  some w3

pub write_bytes : Bool → BitWriter → List ℕ → Option BitWriter
write_bytes checked w src = do
  let bytes = length src
  debug_assert checked (align_bits w == 0)
  debug_assert checked (leb (w.bits_written + bytes * 8) w.num_bits)
  debug_assert checked (w.bits_written % 8 == 0)
  let head = head_bytes w bytes
  w1 ← write_each checked w (take head src)
  let rest = write_rest checked src head w1
  if head == bytes then some w1 else rest

pub flush_bits : Bool → BitWriter → Option BitWriter
flush_bits checked w = if w.scratch_bits == 0 then some w else do
  debug_assert checked (ltb w.scratch_bits 64)
  buffer ← store_word w w.scratch
  some (record w { buffer = buffer; scratch = 0; word_index = w.word_index + 1; scratch_bits = 0 })

-- `data`: the slice of the bytes written.
unfoldable pub data_slice : BitWriter → List ℕ
data_slice w = take (bytes_written w) w.buffer
