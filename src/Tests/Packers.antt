-- ===== src/Tests/Packers.antt =====
-- Runs of the bit packers.
use serialize_rs.Base.{
  ℕ, ◌*◌, ◌/◌, ◌%◌, ◌^◌, ◌≡◌, refl, ◌-◌, arith, true, false, some, List, [], ◌∷◌, ◌++◌, ◌==◌,
  length, replicate,
}
use serialize_rs.Bytes.{le_value}
use serialize_rs.BitsRequired.{bits_required, bits_required_word, IsFewest, bits_required-IsFewest}
use serialize_rs.BitWriter.{write_bits, write_bytes, flush_bits, data_slice, bytes_written}
use serialize_rs.BitWriter.Valid.{Appends, written}
use serialize_rs.BitWriter.Append.{write_bits-Appends}
use serialize_rs.BitWriter.Block.{write_bytes-Appends}
use serialize_rs.BitWriter.Flush.{Flushes, flush_bits-Flushes, data_slice-Flushes}
use serialize_rs.Bits.{digits, digits_of_bytes}
use serialize_rs.BitWriter.Refinement.{
  Command, put_bits, put_align, put_bytes, append_all, pack, pack-append_all,
}
use serialize_rs.BitReader
use serialize_rs.BitReader.{
  BitReader, read_bits, read_align, read_byte_slice, read_bits_group, read_each, load_window,
}
use serialize_rs.BitReader.Valid.{IsValid, field, advance}
use serialize_rs.BitReader.Window.{load_window_lem}
use serialize_rs.BitReader.Extract.{Reads, read_bits-Reads, read_align_lem}
use serialize_rs.BitReader.Slice.{Slices, read_byte_slice-Slices}
use serialize_rs.BitReader.Group.{read_bits_group-read_each}
use serialize_rs.Tests.{
  zeros, writer, writer-IsValid, aligned_writer, aligned_writer-IsValid, reader, reader-IsValid,
  aligned_reader, aligned_reader-IsValid,
}

write_bits-Appends_example : Appends writer 11 4 (write_bits true writer 11 4)
write_bits-Appends_example =
    write_bits-Appends true 11 4 writer-IsValid (record {
      wide = omega arith;
      narrow = omega arith;
      small = omega arith;
      space = omega arith;
    })

abbrev payload : List ℕ
payload = 1 ∷ 2 ∷ 3 ∷ 4 ∷ 5 ∷ 6 ∷ 7 ∷ 8 ∷ 9 ∷ 10 ∷ 11 ∷ 12 ∷ 13 ∷ 14 ∷ 15 ∷ 16 ∷ []

write_bytes-Appends_example :
    Appends aligned_writer
      (le_value payload)
      (8 * length payload)
      (write_bytes true aligned_writer payload)
write_bytes-Appends_example =
    write_bytes-Appends true aligned_writer-IsValid payload refl (ground arith) (omega arith)

flush_bits-Flushes_example : Flushes writer (flush_bits true writer)
flush_bits-Flushes_example = flush_bits-Flushes true writer-IsValid

data_slice-Flushes_example :
    (length (data_slice (flush_bits-Flushes true writer-IsValid).out) ≡ bytes_written writer)
    × (le_value (data_slice (flush_bits-Flushes true writer-IsValid).out) ≡ written writer)
data_slice-Flushes_example =
    data_slice-Flushes true writer-IsValid (flush_bits-Flushes true writer-IsValid)

load_window_lem_example : load_window reader 6 ≡ le_value reader.buffer / 2 ^ (8 * 6) % 2 ^ 64
load_window_lem_example = load_window_lem reader reader-IsValid.bytes 6

read_bits-Reads_example : Reads reader 19 (read_bits true reader 19)
read_bits-Reads_example =
    read_bits-Reads true reader-IsValid 19 (omega arith) (omega arith) (omega arith)

read_align_lem_example :
    (read_align true reader
      ≡ some (
        field reader (BitReader.align_bits reader) == 0,
        advance reader (BitReader.align_bits reader),
      ))
    × IsValid (advance reader (BitReader.align_bits reader))
    × ((advance reader (BitReader.align_bits reader)).bits_read % 8 ≡ 0)
read_align_lem_example = read_align_lem true reader-IsValid

read_byte_slice-Slices_example : Slices aligned_reader 3 (read_byte_slice true aligned_reader 3)
read_byte_slice-Slices_example =
    read_byte_slice-Slices true 3 aligned_reader-IsValid refl (omega arith)

abbrev widths : List ℕ
widths = 3 ∷ 32 ∷ 1 ∷ 17 ∷ []

read_bits_group-read_each_example :
    read_bits_group true reader widths ≡ read_each true reader widths
read_bits_group-read_each_example =
    read_bits_group-read_each true reader-IsValid widths (ground arith)
      (unfold BitReader.total_bits in omega arith)

bits_required-IsFewest_example : IsFewest 32 2000 (bits_required_word 32 0 2000)
bits_required-IsFewest_example = bits_required-IsFewest 32 2000 (omega arith) (omega arith)

bits_required_range : bits_required 0 2000 ≡ 11
unfolding bits_required bits_required_word
bits_required_range = refl

-- Three bits, padding, two bytes, thirty-two bits.
abbrev commands : List Command
commands = put_bits 5 3 ∷ put_align ∷ put_bytes (0x12 ∷ 0xff ∷ []) ∷ put_bits 0xdead_beef 32 ∷ []

pack-append_all_example :
    (bytes : List ℕ) × (pack true commands (zeros 8) ≡ some bytes)
    × (digits_of_bytes bytes
        ≡ append_all commands [] ++ replicate ((8 - length (append_all commands []) % 8) % 8) false)
unfolding digits
pack-append_all_example =
    pack-append_all true commands (zeros 8) refl (omega arith) (ground arith) (ground arith)
