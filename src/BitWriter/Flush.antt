-- ===== src/BitWriter/Flush.antt =====
-- About `flush_bits` of src/bitpacker.rs, and `data` after it.
use serialize_rs.Base.{
  ℕ, ◌+◌, ◌*◌, ◌/◌, ◌%◌, ◌^◌, ◌≤◌, ◌≡◌, refl, ap, sym, ◌∙◌, arith, Bool, Option, some, length,
  length-take, pow_mono, mod-pow_mod, ◌≢◌, lt→ltb,
}
use native.Mathlib.Decide.{ℕ_discrete}
use native.Mathlib.Nat.{mod-eq_of_lt}
use serialize_rs.Bytes.{IsBytes, le_value, le_value-take}
use serialize_rs.BitWriter.{BitWriter, store_word, flush_bits, data_slice, bytes_written}
use serialize_rs.BitWriter.Valid.{IsValid, written, stored, written-lt}
use serialize_rs.BitWriter.Append.{Stores, store_word-Stores}

-- `r` is a normal return of a writer whose whole words, as few as hold them, are all the bits that
-- `w` had written, with nothing in the scratch.
pub record Flushes (w : BitWriter) (r : Option BitWriter) : Type 0 where
  pub out : BitWriter
  pub returns : r ≡ some out
  pub spelled : le_value (stored out) ≡ written w
  pub cleared : out.scratch ≡ 0
  pub emptied : out.scratch_bits ≡ 0
  pub words : out.word_index ≡ (w.bits_written + 63) / 64
  pub counted : out.bits_written ≡ w.bits_written
  pub enough : out.bits_written ≤ 64 * out.word_index
  pub in_buffer : out.word_index * 8 ≤ length out.buffer
  pub same_length : length out.buffer ≡ length w.buffer
  pub bytes : IsBytes out.buffer

module _ (checked : Bool) {w : BitWriter} (v : IsValid w) where
  flush_empty : w.scratch_bits ≡ 0 → Flushes w (flush_bits checked w)
  unfolding flush_bits written
  flush_empty empty =
      let nothing : w.scratch ≡ 0 = omega (arith, v.held, ap (λ (t : ℕ). 2 ^ t) empty) in
      record {
        out = w;
        returns = ground arith;
        spelled = omega (arith, ap (λ (t : ℕ). 2 ^ (64 * w.word_index) * t) nothing);
        cleared = nothing;
        emptied = empty;
        words = omega (arith, v.index, empty);
        counted = refl;
        enough = omega arith;
        in_buffer = omega arith;
        same_length = refl;
        bytes = v.bytes;
      }

  flush_partial : w.scratch_bits ≢ 0 → Flushes w (flush_bits checked w)
  unfolding flush_bits written
  flush_partial partial =
      let word : Stores w w.scratch (store_word w w.scratch) =
        store_word-Stores w.scratch v (omega (arith, full)) (omega arith) in
      record {
        out = record w {
          buffer = word.buffer;
          scratch = 0;
          word_index = w.word_index + 1;
          scratch_bits = 0;
        };
        returns = ground (arith, word.returns, lt→ltb w.scratch_bits 64 v.partial);
        spelled = word.value;
        cleared = refl;
        emptied = refl;
        words = omega (arith, v.index, v.partial, partial);
        counted = refl;
        enough = omega arith;
        in_buffer = omega (arith, word.same_length);
        same_length = word.same_length;
        bytes = word.bytes;
      }
    where
      full : 2 ^ w.scratch_bits ≤ 2 ^ 64
      full = pow_mono {b = 64} (omega arith)

  -- `BitWriter::flush_bits` on a valid writer, in either build: no panic; the whole words of the
  -- buffer, as many as the bits written fill or begin, then spell all that was written; the
  -- scratch and its count of bits are zero; the count of bits written and the length of the
  -- buffer are unchanged.
  pub flush_bits-Flushes : Flushes w (flush_bits checked w)
  flush_bits-Flushes = elim (ℕ_discrete w.scratch_bits 0) [
    | yes empty ↦ flush_empty empty
    | no partial ↦ flush_partial partial
  ]

  -- After a flush of a valid writer, `BitWriter::data` is `bytes_written` bytes long, and spells
  -- all that was written, with zeros in the unused bits of its last byte.
  pub data_slice-Flushes :
      (f : Flushes w (flush_bits checked w))
      → (length (data_slice f.out) ≡ bytes_written w) × (le_value (data_slice f.out) ≡ written w)
  unfolding data_slice bytes_written
  data_slice-Flushes f = (
    omega (
      arith,
      f.counted,
      f.enough,
      f.in_buffer,
      length-take ((f.out.bits_written + 7) / 8) f.out.buffer,
    ),
    le_value-take n f.out.buffer f.bytes
        ∙ sym (
            mod-pow_mod (le_value f.out.buffer) (8 * n) (8 * (f.out.word_index * 8))
              (omega (arith, f.enough)))
        ∙ ap (λ (t : ℕ). t % 2 ^ (8 * n))
            (sym (le_value-take (f.out.word_index * 8) f.out.buffer f.bytes) ∙ f.spelled)
        ∙ mod-eq_of_lt (omega (arith, written-lt v, bound)),
  )
    where
      n : ℕ
      n = (f.out.bits_written + 7) / 8

      bound : 2 ^ w.bits_written ≤ 2 ^ (8 * n)
      bound = pow_mono (omega (arith, f.counted))
