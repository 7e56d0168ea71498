-- ===== src/Tests.antt =====
-- Concrete writers, readers and packets, and runs on them.
mod Packers
mod Streams
mod Wide
mod Numbers
mod Text
mod Runs
mod Packets
use serialize_rs.Base.{
  ℕ, zero, suc, ◌+◌, ◌*◌, ◌^◌, ◌≤◌, ◌<◌, ◌≡◌, refl, arith, Bool, true, false, none, List, [], ◌∷◌,
  ◌++◌, replicate,
}
use serialize_rs.BitWriter.{BitWriter}
use serialize_rs.BitWriter.Valid as WriterValid
use serialize_rs.BitReader.{BitReader}
use serialize_rs.BitReader.Valid as ReaderValid
use serialize_rs.ReadStream.{ReadStream}
use serialize_rs.WriteStream.{WriteStream}

abbrev zeros : ℕ → List ℕ
zeros n = replicate n 0

-- 61 bits are in the scratch: a field of 4 spills over the word's end.
abbrev writer : BitWriter
writer = record {
  buffer = zeros 16;
  scratch = 2 ^ 60 + 5;
  num_bits = 128;
  bits_written = 61;
  word_index = 0;
  scratch_bits = 61;
}

writer-IsValid : WriterValid.IsValid writer
writer-IsValid = record {
  whole_words = refl;
  size = refl;
  fits = omega arith;
  index = refl;
  partial = omega arith;
  room = omega arith;
  held = omega arith;
  bytes = ground arith;
}

-- A writer at a byte boundary, 16 bits in.
abbrev aligned_writer : BitWriter
aligned_writer = record {
  buffer = zeros 32;
  scratch = 0xbeef;
  num_bits = 256;
  bits_written = 16;
  word_index = 0;
  scratch_bits = 16;
}

aligned_writer-IsValid : WriterValid.IsValid aligned_writer
aligned_writer-IsValid = record {
  whole_words = refl;
  size = refl;
  fits = omega arith;
  index = refl;
  partial = omega arith;
  room = omega arith;
  held = omega arith;
  bytes = ground arith;
}

abbrev packet_bytes : List ℕ
packet_bytes = 0xab ∷ 0xcd ∷ 0x05 ∷ 0x77 ∷ 0x12 ∷ 0x00 ∷ 0xff ∷ 0x34 ∷ 0x56 ∷ 0x78 ∷ []

-- 13 bits into a packet of ten bytes.
abbrev reader : BitReader
reader = record { buffer = packet_bytes; num_bits = 80; bits_read = 13 }

reader-IsValid : ReaderValid.IsValid reader
reader-IsValid = record {
  whole_bytes = refl;
  in_buffer = omega arith;
  fits = omega arith;
  within = omega arith;
  bytes = ground arith;
}

-- The same packet at the third byte.
abbrev aligned_reader : BitReader
aligned_reader = record { buffer = packet_bytes; num_bits = 80; bits_read = 16 }

aligned_reader-IsValid : ReaderValid.IsValid aligned_reader
aligned_reader-IsValid = record {
  whole_bytes = refl;
  in_buffer = omega arith;
  fits = omega arith;
  within = omega arith;
  bytes = ground arith;
}

abbrev read_stream : ReadStream
read_stream = record { reader = reader; failed = none }

abbrev write_stream : WriteStream
write_stream = record { writer = writer }

abbrev aligned_write_stream : WriteStream
aligned_write_stream = record { writer = aligned_writer }
