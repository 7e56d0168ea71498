-- ===== src/ReadStream/Start.antt =====
-- About `ReadStream::new` of src/read_stream.rs.
use serialize_rs.Base.{
  ℕ, ◌*◌, ◌^◌, ◌≤◌, ◌<◌, ◌≡◌, refl, arith, Bool, Option, none, some, List, length, le→leb, lt→leb,
}
use serialize_rs.Bytes.{IsBytes}
use serialize_rs.Error.{value_out_of_range}
use serialize_rs.BitReader.{BitReader}
use serialize_rs.BitReader.Valid.{IsValid, new-IsValid}
use serialize_rs.ReadStream.{ReadStream, new}

-- A new stream at the start of the first `bytes` bytes of `buffer`.
pub record Starts (buffer : List ℕ) (bytes : ℕ) (r : Option ReadStream) : Type 0 where
  pub reader : BitReader
  pub returns : r ≡ some (record { reader = reader; failed = none })
  pub valid : IsValid reader
  pub start : reader.bits_read ≡ 0
  pub size : reader.num_bits ≡ 8 * bytes
  pub same_buffer : reader.buffer ≡ buffer

module _ (checked : Bool) (buffer : List ℕ) (bytes : ℕ) (are_bytes : IsBytes buffer) where
  pub new-Starts :
      bytes ≤ length buffer → 8 * bytes < 2 ^ 64 → Starts buffer bytes (new checked buffer bytes)
  unfolding new
  new-Starts in_buffer fits =
      let (r, returns, valid, start, size, same) =
        new-IsValid checked buffer bytes in_buffer fits are_bytes in
      record {
        reader = r;
        returns = rw (le→leb _ _ in_buffer, returns) refl;
        valid = valid;
        start = start;
        size = size;
        same_buffer = same;
      }

  -- A count past the buffer's end.
  pub new_past_end :
      length buffer < bytes
      → (reader : BitReader) × (new checked buffer bytes
          ≡ some (record { reader = reader; failed = some value_out_of_range }))
        × IsValid reader
        × (reader.num_bits ≡ 0)
  unfolding new
  new_past_end past_end =
      let (r, returns, valid, start, size, same) =
        new-IsValid checked buffer 0 (omega arith) (omega arith) are_bytes in
      (r, rw (lt→leb _ _ past_end, returns) refl, valid, size)
