-- ===== src/BitReader/Slice.antt =====
-- About `read_byte_slice` of src/bitpacker.rs.
use serialize_rs.Base.{
  ℕ, ◌+◌, ◌*◌, ◌/◌, ◌%◌, ◌^◌, ◌≤◌, ◌≡◌, ap, ◌∙◌, arith, Bool, Option, some, List, length, take,
  drop, le→leb, length-take, length-drop,
}
use serialize_rs.Bytes.{IsBytes, IsBytes-take, IsBytes-drop, le_value, le_value-take, le_value-drop}
use serialize_rs.BitReader.{BitReader, slice, read_byte_slice, align_bits}
use serialize_rs.BitReader.Valid.{IsValid, field, field_lem, advance, advance-IsValid}

-- `result` is a normal return of the packet's next `n` bytes, and the reader stands behind them.
pub record Slices (r : BitReader) (n : ℕ) (result : Option (List ℕ × BitReader)) : Type 0 where
  pub found : List ℕ
  pub returns : result ≡ some (found, advance r (8 * n))
  pub width : length found ≡ n
  pub value : le_value found ≡ field r (8 * n)
  pub bytes : IsBytes found
  pub valid : IsValid (advance r (8 * n))

-- `BitReader::read_byte_slice` on a valid reader at a byte boundary with that many bytes left,
-- in either build: no panic; the slice has the length asked for, and holds the packet's next
-- bytes; the reader advances past them and stays valid.
pub read_byte_slice-Slices :
    (checked : Bool) {r : BitReader} (n : ℕ)
    → IsValid r
    → r.bits_read % 8 ≡ 0
    → r.bits_read + 8 * n ≤ r.num_bits
    → Slices r n (read_byte_slice checked r n)
unfolding read_byte_slice slice align_bits
read_byte_slice-Slices checked {r} n v aligned room = record {
  found = take n (drop start r.buffer);
  returns = ground (
    arith,
    le→leb (r.bits_read + n * 8) r.num_bits (omega arith),
    le→leb (start + n) (length r.buffer) (omega arith),
  );
  width = omega (arith, length-take n (drop start r.buffer), length-drop start r.buffer);
  value =
      le_value-take n (drop start r.buffer) (IsBytes-drop start r.buffer v.bytes)
      ∙ ap (λ (t : ℕ). t % 2 ^ (8 * n)) (le_value-drop start r.buffer v.bytes)
      ∙ ap (λ (t : ℕ). le_value r.buffer / 2 ^ t % 2 ^ (8 * n)) (omega arith)
      ∙ field_lem r (8 * n) room;
  bytes = IsBytes-take n (drop start r.buffer) (IsBytes-drop start r.buffer v.bytes);
  valid = advance-IsValid (8 * n) v room;
}
  where
    start : ℕ
    start = r.bits_read / 8
