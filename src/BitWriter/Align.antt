-- ===== src/BitWriter/Align.antt =====
-- About `BitWriter::new` and `write_align` of src/bitpacker.rs.
use serialize_rs.Base.{
  ℕ, ◌-◌, ◌*◌, ◌%◌, ◌^◌, ◌<◌, ◌≡◌, refl, arith, Bool, some, List, ◌==◌, length, pow_pos, ◌≢◌,
}
use native.Mathlib.Decide.{ℕ_discrete}
use serialize_rs.Bytes.{IsBytes, le_value}
use serialize_rs.BitWriter.{BitWriter, new, write_bits, write_align, align_bits}
use serialize_rs.BitWriter.Valid.{IsValid, written, Appends}
use serialize_rs.BitWriter.Append.{Fits, write_bits-Appends}
use serialize_rs.BitWriter.Chain.{Appends-none, Appends-as, Appends-via, Appends-assert}

-- A new writer, over a buffer of whole words, has written nothing.
pub new-IsValid :
    (checked : Bool) (buffer : List ℕ)
    → length buffer % 8 ≡ 0
    → 8 * length buffer < 2 ^ 64
    → IsBytes buffer
    → (w : BitWriter) × (new checked buffer ≡ some w)
      × IsValid w
      × (written w ≡ 0)
      × (w.bits_written ≡ 0)
      × (w.num_bits ≡ 8 * length buffer)
unfolding new written le_value
new-IsValid checked buffer whole fits are_bytes = (
  record {
    buffer = buffer;
    scratch = 0;
    num_bits = 8 * length buffer;
    bits_written = 0;
    word_index = 0;
    scratch_bits = 0;
  },
  ground arith,
  record {
    whole_words = whole;
    size = refl;
    fits = fits;
    index = refl;
    partial = omega arith;
    room = omega arith;
    held = omega arith;
    bytes = are_bytes;
  },
  refl,
  refl,
  refl,
)

module _ (checked : Bool) {w : BitWriter} (v : IsValid w) where
  padding-Fits : w.bits_written % 8 ≢ 0 → Fits w 0 (8 - w.bits_written % 8)
  padding-Fits ragged = record {
    wide = omega arith;
    narrow = omega arith;
    small = pow_pos (8 - w.bits_written % 8);
    space = omega arith;
  }

  -- `BitWriter::write_align` on a valid writer, in either build: no panic, whatever room is
  -- left; `align_bits` zero bits are appended, and the writer stays valid.
  pub write_align-Appends : Appends w 0 (align_bits w) (write_align checked w)
  unfolding write_align align_bits
  write_align-Appends = elim (ℕ_discrete (w.bits_written % 8) 0) [
    | yes aligned ↦ Appends-via (Appends-as (Appends-none v) refl (omega arith)) (ground arith)
    | no ragged ↦
        let pad : Appends w 0 (8 - w.bits_written % 8)
            (write_bits checked w 0 (8 - w.bits_written % 8)) =
          write_bits-Appends checked 0 (8 - w.bits_written % 8) v (padding-Fits ragged) in
        Appends-via
          (Appends-as
            (Appends-assert pad checked (λ w'. w'.bits_written % 8 == 0)
              (ground (arith, pad.counted)))
            refl (omega arith))
          (ground arith)
  ]
