-- ===== src/BitWriter/Append.antt =====
-- About `write_bits` of src/bitpacker.rs.
use serialize_rs.Base.{
  ℕ, ◌+◌, ◌-◌, ◌*◌, ◌/◌, ◌%◌, ◌^◌, ◌≤◌, ◌<◌, ◌≡◌, ap, ◌∙◌, arith, Bool, true, Option, some, List,
  ltb, leb, length, take, le→leb, lt→ltb, pow-add, field_pow_lt, shl, sub_word,
}
use native.Mathlib.Decide.{dec_lt}
use serialize_rs.Bytes.{
  IsBytes, le_value, to_le_bytes, copy_in_bounds, length-to_le_bytes, le_value-to_le_bytes,
  to_le_bytes-IsBytes,
}
use serialize_rs.BitWriter.{BitWriter, write_bits, store_word}
use serialize_rs.BitWriter.Valid.{IsValid, written, stored, stored-append, Appends}
use serialize_rs.BitWriter.Scratch.{
  merge_lem, merge-lt, spill_lem, spill-lt, spill_whole, fits_whole, fits_assert,
}

-- A word of room: the word is stored behind the others.
pub record Stores (w : BitWriter) (word : ℕ) (r : Option (List ℕ)) : Type 0 where
  pub buffer : List ℕ
  pub returns : r ≡ some buffer
  pub same_length : length buffer ≡ length w.buffer
  pub value :
      le_value (take ((w.word_index + 1) * 8) buffer)
      ≡ le_value (stored w) + 2 ^ (64 * w.word_index) * word
  pub bytes : IsBytes buffer

pub store_word-Stores :
    {w : BitWriter} (word : ℕ)
    → IsValid w
    → word < 2 ^ 64
    → 8 * w.word_index + 8 ≤ length w.buffer
    → Stores w word (store_word w word)
unfolding store_word
store_word-Stores {w} word v small room =
    let end : (w.word_index + 1) * 8 ≡ w.word_index * 8 + length (to_le_bytes 8 word) =
      omega (arith, length-to_le_bytes 8 word) in
    let (out, ret, len, front, are_bytes) =
      copy_in_bounds w.buffer (w.word_index * 8) (to_le_bytes 8 word)
        (omega (arith, length-to_le_bytes 8 word)) in
    record {
      buffer = out;
      returns = ret;
      same_length = len;
      value =
          ap (λ (t : ℕ). le_value (take t out)) end
          ∙ ap le_value front
          ∙ stored-append w (to_le_bytes 8 word) (omega arith)
          ∙ ap (λ (t : ℕ). le_value (stored w) + 2 ^ (64 * w.word_index) * t)
              (omega (arith, le_value-to_le_bytes 8 word));
      bytes = are_bytes v.bytes (to_le_bytes-IsBytes 8 word);
    }

-- The three debug assertions of `write_bits` hold for a write that fits.
pub record Fits (w : BitWriter) (value bits : ℕ) : Type 0 where
  pub wide : 1 ≤ bits
  pub narrow : bits ≤ 32
  pub small : value < 2 ^ bits
  pub space : w.bits_written + bits ≤ w.num_bits

module _ (checked : Bool) {w : BitWriter} (value bits : ℕ) (v : IsValid w)
    (f : Fits w value bits) where
  abbrev merged : ℕ
  merged = w.scratch + 2 ^ w.scratch_bits * (value % 2 ^ (64 - w.scratch_bits))

  base_pow : 2 ^ w.bits_written ≡ 2 ^ (64 * w.word_index) * 2 ^ w.scratch_bits
  base_pow = ap (λ (t : ℕ). 2 ^ t) v.index ∙ pow-add (64 * w.word_index) w.scratch_bits

  next_pow : 2 ^ (64 * (w.word_index + 1)) ≡ 2 ^ (64 * w.word_index) * 2 ^ 64
  next_pow = ap (λ (t : ℕ). 2 ^ t) (omega arith) ∙ pow-add (64 * w.word_index) 64

  asserts_hold :
      (ltb (sub_word 32 bits 1) 32 ≡ true)
      × (leb (w.bits_written + bits) w.num_bits ≡ true)
      × (ltb value (shl 64 1 bits) ≡ true)
  asserts_hold =
      (lt→ltb _ _ (omega arith), le→leb _ _ (omega arith), fits_assert value bits f.narrow f.small)

  -- The scratch does not fill.
  write_bits_short :
      w.scratch_bits + bits < 64 → Appends w value bits (write_bits checked w value bits)
  unfolding write_bits written
  write_bits_short short =
      let whole : merged ≡ w.scratch + 2 ^ w.scratch_bits * value =
        ap (λ (t : ℕ). w.scratch + 2 ^ w.scratch_bits * t)
          (fits_whole value w.scratch_bits bits short f.small) in
      record {
        out = record w {
          scratch = merged;
          bits_written = w.bits_written + bits;
          scratch_bits = w.scratch_bits + bits;
        };
        returns =
            ground (arith, asserts_hold, merge_lem w.scratch value w.scratch_bits v.partial v.held);
        valid = record {
          whole_words = v.whole_words;
          size = v.size;
          fits = v.fits;
          index = omega arith;
          partial = short;
          room = f.space;
          held =
              omega (arith, whole, field_pow_lt w.scratch_bits bits w.scratch value v.held f.small);
          bytes = v.bytes;
        };
        appended = omega (
          arith,
          ap (λ (t : ℕ). 2 ^ (64 * w.word_index) * t) whole,
          ap (λ (t : ℕ). t * value) base_pow,
        );
        counted = omega arith;
        same_size = omega arith;
      }

  -- The scratch fills: the word is stored, and what spilled past it starts the next.
  write_bits_spill :
      64 ≤ w.scratch_bits + bits → Appends w value bits (write_bits checked w value bits)
  unfolding write_bits written
  write_bits_spill long =
      let word : Stores w merged (store_word w merged) =
        store_word-Stores merged v (merge-lt w.scratch value w.scratch_bits v.partial v.held)
          (omega arith) in
      record {
        out = record w {
          buffer = word.buffer;
          scratch = value / 2 ^ (64 - w.scratch_bits);
          bits_written = w.bits_written + bits;
          word_index = w.word_index + 1;
          scratch_bits = w.scratch_bits + bits - 64;
        };
        returns = ground (
          arith,
          asserts_hold,
          merge_lem w.scratch value w.scratch_bits v.partial v.held,
          word.returns,
          spill_lem value w.scratch_bits (omega arith) v.partial,
        );
        valid = record {
          whole_words = omega (arith, word.same_length);
          size = omega (arith, word.same_length);
          fits = v.fits;
          index = omega arith;
          partial = omega arith;
          room = f.space;
          held = spill-lt value w.scratch_bits bits long v.partial f.small;
          bytes = word.bytes;
        };
        appended = omega (
          arith,
          word.value,
          ap (λ (t : ℕ). t * value) base_pow,
          ap (λ (t : ℕ). t * (value / 2 ^ (64 - w.scratch_bits))) next_pow,
          ap (λ (t : ℕ). 2 ^ (64 * w.word_index) * t)
              (spill_whole w.scratch value w.scratch_bits v.partial),
        );
        counted = omega arith;
        same_size = omega arith;
      }

  -- `BitWriter::write_bits` on a valid writer, with a width in [1,32], a value that fits the
  -- width and room for it, in either build: no panic; the value's bits stand behind those
  -- already written, which are unchanged, also where they spill over the end of the scratch
  -- word; the count of bits grows by the width; and the writer stays valid.
  pub write_bits-Appends : Appends w value bits (write_bits checked w value bits)
  write_bits-Appends = elim (dec_lt (w.scratch_bits + bits) 64) [
    | yes short ↦ write_bits_short short
    | no long ↦ write_bits_spill (omega arith)
  ]
