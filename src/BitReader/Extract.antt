-- ===== src/BitReader/Extract.antt =====
-- About `read_bits` and `read_align` of src/bitpacker.rs.
use serialize_rs.Base.{
  ℕ, ◌+◌, ◌-◌, ◌*◌, ◌/◌, ◌%◌, ◌^◌, ◌≤◌, ◌≡◌, ◌≢◌, ap, ◌∙◌, arith, Bool, Option, some, ◌==◌, bit_and,
  bit_and_mask, shr, mask32, mask32_lem, mod-pow_div, mod-pow_mod, div-pow_add, lt→ltb, le→leb,
  sub_word,
}
use native.Mathlib.Decide.{ℕ_discrete}
use serialize_rs.Bytes.{le_value}
use serialize_rs.BitReader.{BitReader, load_window, extract, read_bits, read_align, align_bits}
use serialize_rs.BitReader.Valid.{IsValid, field, field_lem, advance, advance-IsValid, field-zero}
use serialize_rs.BitReader.Window.{load_window_lem}

-- From a 64-bit window, at most 32 bits behind at most 32 others.
pub extract_lem :
    (x shift bits : ℕ)
    → shift ≤ 32
    → bits ≤ 32
    → extract (x % 2 ^ 64) shift bits ≡ x / 2 ^ shift % 2 ^ bits
unfolding extract
extract_lem x shift bits hs hb =
    ap (λ (t : ℕ). bit_and (x % 2 ^ 64 / 2 ^ t % 2 ^ 32) (mask32 bits)) whole_shift
    ∙ ap (bit_and (x % 2 ^ 64 / 2 ^ shift % 2 ^ 32)) (mask32_lem bits hb)
    ∙ bit_and_mask bits (x % 2 ^ 64 / 2 ^ shift % 2 ^ 32)
    ∙ mod-pow_mod (x % 2 ^ 64 / 2 ^ shift) bits 32 hb
    ∙ ap (λ (t : ℕ). x % 2 ^ t / 2 ^ shift % 2 ^ bits) whole_width
    ∙ ap (λ (t : ℕ). t % 2 ^ bits) (mod-pow_div x shift (64 - shift))
    ∙ mod-pow_mod (x / 2 ^ shift) bits (64 - shift) (omega arith)
  where
    whole_shift : shift % 64 ≡ shift
    whole_shift = omega arith

    whole_width : 64 ≡ shift + (64 - shift)
    whole_width = omega arith

-- The window and the remainder together address one bit.
pub window_bits :
    (N p bits : ℕ)
    → bits ≤ 32
    → extract (N / 2 ^ (8 * (p / 8)) % 2 ^ 64) (bit_and p 7) bits ≡ N / 2 ^ p % 2 ^ bits
window_bits N p bits hb =
    ap (λ (t : ℕ). extract (N / 2 ^ (8 * (p / 8)) % 2 ^ 64) t bits) (bit_and_mask 3 p)
    ∙ extract_lem (N / 2 ^ (8 * (p / 8))) (p % 8) bits (omega arith) hb
    ∙ ap (λ (t : ℕ). t % 2 ^ bits)
        (div-pow_add N (8 * (p / 8)) (p % 8) ∙ ap (λ (t : ℕ). N / 2 ^ t) (omega arith))

-- `result` is a normal return of the next `bits` bits, and the reader stands behind them.
abbrev pub Reads : BitReader → ℕ → Option (ℕ × BitReader) → Type 0
Reads r bits result = (result ≡ some (field r bits, advance r bits)) × IsValid (advance r bits)

pub align_fits :
    {r : BitReader}
    → IsValid r
    → r.bits_read % 8 ≢ 0
    → r.bits_read + (8 - r.bits_read % 8) ≤ r.num_bits
align_fits v ragged = omega arith

module _ (checked : Bool) {r : BitReader} (v : IsValid r) where
  -- `BitReader::read_bits` on a valid reader, with a width in [1,32] and that many bits left, in
  -- either build: no panic; the value is the packet's next bits, of a window loaded at any
  -- offset and also near the buffer's end; the reader advances by the width and stays valid.
  pub read_bits-Reads :
      (bits : ℕ)
      → 1 ≤ bits
      → bits ≤ 32
      → r.bits_read + bits ≤ r.num_bits
      → Reads r bits (read_bits checked r bits)
  unfolding read_bits
  read_bits-Reads bits lo hi room = (
    ground (
      arith,
      lt→ltb (sub_word 32 bits 1) 32 (omega arith),
      le→leb (r.bits_read + bits) r.num_bits room,
      value,
    ),
    advance-IsValid bits v room,
  )
    where
      value :
          extract (load_window r (shr 64 r.bits_read 3)) (bit_and r.bits_read 7) bits ≡ field r bits
      value =
          ap (λ (t : ℕ). extract t (bit_and r.bits_read 7) bits)
            (load_window_lem r v.bytes (r.bits_read / 8))
          ∙ window_bits (le_value r.buffer) r.bits_read bits hi
          ∙ field_lem r bits room

  -- `BitReader::read_align` on a valid reader, in either build: no panic, since the padding
  -- never passes the end of a packet of whole bytes; it returns whether the padding bits are all
  -- zero; the reader stays valid and stands at a byte boundary.
  pub read_align_lem :
      (read_align checked r ≡ some (field r (align_bits r) == 0, advance r (align_bits r)))
      × IsValid (advance r (align_bits r))
      × ((advance r (align_bits r)).bits_read % 8 ≡ 0)
  unfolding read_align align_bits
  read_align_lem = elim (ℕ_discrete (r.bits_read % 8) 0) [
    | yes aligned ↦
        let none_left : (8 - r.bits_read % 8) % 8 ≡ 0 = omega arith in
        (
          ground (arith, ap (field r) none_left, field-zero r),
          advance-IsValid _ v (omega arith),
          omega arith,
        )
    | no ragged ↦
        let some_left : (8 - r.bits_read % 8) % 8 ≡ 8 - r.bits_read % 8 = omega arith in
        let padding : Reads r (8 - r.bits_read % 8) (read_bits checked r (8 - r.bits_read % 8)) =
          read_bits-Reads (8 - r.bits_read % 8) (omega arith) (omega arith) (align_fits v ragged) in
        (
          ground (arith, ap (field r) some_left, padding.0),
          advance-IsValid _ v (omega (arith, align_fits v ragged)),
          omega arith,
        )
  ]
