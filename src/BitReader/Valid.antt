-- ===== src/BitReader/Valid.antt =====
-- The invariant of `BitReader` of src/bitpacker.rs, and the bits of its packet as a number.
use serialize_rs.Base.{
  ℕ, ◌+◌, ◌-◌, ◌*◌, ◌/◌, ◌%◌, ◌^◌, ◌≤◌, ◌<◌, ◌≡◌, refl, ap, sym, ◌∙◌, arith, List, some, Bool,
  length, mod-pow_div, mod-pow_mod, le→leb,
}
use serialize_rs.Bytes.{IsBytes, le_value}
use serialize_rs.BitReader.{BitReader, new}

pub record IsValid (r : BitReader) : Type 0 where
  pub whole_bytes : r.num_bits % 8 ≡ 0
  pub in_buffer : r.num_bits ≤ 8 * length r.buffer
  pub fits : r.num_bits < 2 ^ 64
  pub within : r.bits_read ≤ r.num_bits
  pub bytes : IsBytes r.buffer

-- The bits of the packet as a number, the first the lowest.
unfoldable pub packet : BitReader → ℕ
packet r = le_value r.buffer % 2 ^ r.num_bits

-- The next `bits` bits.
unfoldable pub field : BitReader → ℕ → ℕ
field r bits = packet r / 2 ^ r.bits_read % 2 ^ bits

pub field-zero : (r : BitReader) → field r 0 ≡ 0
unfolding field
field-zero r = omega arith

abbrev pub advance : BitReader → ℕ → BitReader
advance r bits = record r { bits_read = r.bits_read + bits }

pub advance-IsValid :
    {r : BitReader} (bits : ℕ)
    → IsValid r
    → r.bits_read + bits ≤ r.num_bits
    → IsValid (advance r bits)
advance-IsValid bits v room = record {
  whole_bytes = v.whole_bytes;
  in_buffer = v.in_buffer;
  fits = v.fits;
  within = room;
  bytes = v.bytes;
}

-- Bytes behind the packet are loaded, and do not count.
pub field_lem :
    (r : BitReader) (bits : ℕ)
    → r.bits_read + bits ≤ r.num_bits
    → le_value r.buffer / 2 ^ r.bits_read % 2 ^ bits ≡ field r bits
unfolding field packet
field_lem r bits room =
    sym (
      mod-pow_mod (le_value r.buffer / 2 ^ r.bits_read) bits (r.num_bits - r.bits_read)
        (omega arith))
    ∙ ap (λ (t : ℕ). t % 2 ^ bits)
        (sym (mod-pow_div (le_value r.buffer) r.bits_read (r.num_bits - r.bits_read))
          ∙ ap (λ (t : ℕ). le_value r.buffer % 2 ^ t / 2 ^ r.bits_read) (omega arith))

-- A new reader stands at the start of its packet.
pub new-IsValid :
    (checked : Bool) (buffer : List ℕ) (bytes : ℕ)
    → bytes ≤ length buffer
    → 8 * bytes < 2 ^ 64
    → IsBytes buffer
    → (r : BitReader) × (new checked buffer bytes ≡ some r)
      × IsValid r
      × (r.bits_read ≡ 0)
      × (r.num_bits ≡ 8 * bytes)
      × (r.buffer ≡ buffer)
unfolding new
new-IsValid checked buffer bytes in_buffer fits are_bytes = (
  record { buffer = buffer; num_bits = 8 * bytes; bits_read = 0 },
  ground (arith, le→leb bytes (length buffer) in_buffer),
  record {
    whole_bytes = omega arith;
    in_buffer = omega arith;
    fits = fits;
    within = omega arith;
    bytes = are_bytes;
  },
  refl,
  refl,
  refl,
)
