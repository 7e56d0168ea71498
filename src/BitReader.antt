-- ===== src/BitReader.antt =====
-- src/bitpacker.rs, `BitReader`: its state and its operations.
pub mod Valid
pub mod Window
pub mod Extract
pub mod Group
pub mod Slice
use serialize_rs.Base.{
  ℕ, zero, ◌+◌, ◌-◌, ◌*◌, ◌/◌, ◌%◌, ◌^◌, min, Bool, true, false, Option, none, some, List, [], ◌∷◌,
  ◌++◌, ltb, leb, ◌==◌, ◌&&◌, not, if◌then◌else◌, length, take, drop, replicate, bit_and, cast,
  add_word, sub_word, shl, shr, mask32,
}
use serialize_rs.Bytes.{le_value}
use serialize_rs.Panic.{◌>>=◌, ◌>>◌, debug_assert}

pub record BitReader : Type 0 where
  pub buffer : List ℕ
  pub num_bits : ℕ
  pub bits_read : ℕ

pub new : Bool → List ℕ → ℕ → Option BitReader
new checked buffer bytes = do
  debug_assert checked (leb bytes (length buffer))
  some (record { buffer = buffer; num_bits = cast 64 (bytes * 8); bits_read = 0 })

-- Past the last whole window: what bytes remain, padded with zeros.
pub load_window_slow : BitReader → ℕ → ℕ
load_window_slow r byte_index =
    let start = min byte_index (length r.buffer) in
    let tail = drop start r.buffer in
    let n = min (length tail) 8 in le_value (take n tail ++ drop n (replicate 8 0))

pub load_window : BitReader → ℕ → ℕ
load_window r byte_index =
    if leb (byte_index + 8) (length r.buffer)
    then le_value (take 8 (drop byte_index r.buffer))
    else load_window_slow r byte_index

unfoldable pub would_read_past_end : BitReader → ℕ → Bool
would_read_past_end r bits = ltb r.num_bits (r.bits_read + bits)

-- `((window >> shift) as u32) & (((1u64 << bits) - 1) as u32)`
pub extract : ℕ → ℕ → ℕ → ℕ
extract window shift bits = bit_and (cast 32 (shr 64 window shift)) (mask32 bits)

pub read_bits : Bool → BitReader → ℕ → Option (ℕ × BitReader)
read_bits checked r bits = do
  debug_assert checked (ltb (sub_word 32 bits 1) 32)
  debug_assert checked (leb (r.bits_read + bits) r.num_bits)
  let window = load_window r (shr 64 r.bits_read 3)
  let output = extract window (bit_and r.bits_read 7) bits
  some (output, record r { bits_read = add_word 64 r.bits_read bits })

-- The reduction over the widths: each in [1,32], and their sum.
pub widths_ok : List ℕ → Bool
widths_ok [] = true
widths_ok (bits ∷ rest) = ltb (sub_word 32 bits 1) 32 && widths_ok rest

unfoldable pub total_bits : List ℕ → ℕ
total_bits [] = 0
total_bits (bits ∷ rest) = bits + total_bits rest

-- The fast loop over the 40 bytes of the group, from the bit `local` on.
pub group_values : List ℕ → ℕ → List ℕ → List ℕ
group_values group local [] = []
group_values group local (bits ∷ rest) =
    let off = bit_and (shr 32 local 3) 31 in
    let window = le_value (take 8 (drop off group)) in
    extract window (bit_and local 7) bits ∷ group_values group (add_word 32 local bits) rest

-- The per-call path: `read_bits` once for each width.
pub read_each : Bool → BitReader → List ℕ → Option (List ℕ × BitReader)
read_each checked r [] = some ([], r)
read_each checked r (bits ∷ rest) = do
  (value, r1) ← read_bits checked r bits
  (values, r2) ← read_each checked r1 rest
  some (value ∷ values, r2)

pub read_bits_group : Bool → BitReader → List ℕ → Option (List ℕ × BitReader)
read_bits_group checked r widths = do
  let total = total_bits widths
  debug_assert checked (widths_ok widths)
  debug_assert checked (leb (r.bits_read + total) r.num_bits)
  let base = shr 64 r.bits_read 3
  if leb total 248 && leb (base + 40) (length r.buffer)
      then some (
        group_values (take 40 (drop base r.buffer)) (cast 32 (bit_and r.bits_read 7)) widths,
        record r { bits_read = add_word 64 r.bits_read total },
      )
      else read_each checked r widths

unfoldable pub align_bits : BitReader → ℕ
align_bits r = (8 - r.bits_read % 8) % 8

unfoldable pub bits_remaining : BitReader → ℕ
bits_remaining r = sub_word 64 r.num_bits r.bits_read

-- Whether the padding was zero.
pub read_align : Bool → BitReader → Option (Bool × BitReader)
read_align checked r =
    let remainder_bits = r.bits_read % 8 in
    let pad = (do
      (value, r') ← read_bits checked r (8 - remainder_bits)
      debug_assert checked (r'.bits_read % 8 == 0)
      some (value == 0, r')) in
    if remainder_bits == 0 then some (true, r) else pad

-- `&self.data[start..start + bytes]`; `none` is the slice bounds panic.
pub slice : List ℕ → ℕ → ℕ → Option (List ℕ)
slice buffer start bytes =
    if leb (start + bytes) (length buffer) then some (take bytes (drop start buffer)) else none

pub read_byte_slice : Bool → BitReader → ℕ → Option (List ℕ × BitReader)
read_byte_slice checked r bytes = do
  debug_assert checked (align_bits r == 0)
  debug_assert checked (leb (r.bits_read + bytes * 8) r.num_bits)
  let start = shr 64 r.bits_read 3
  found ← slice r.buffer start bytes
  some (found, record r { bits_read = add_word 64 r.bits_read (bytes * 8) })

-- Filling a destination: all of it, or a panic.
unfoldable pub read_bytes : Bool → BitReader → List ℕ → Option (List ℕ × BitReader)
unfolding read_byte_slice
read_bytes checked r dest = read_byte_slice checked r (length dest)
