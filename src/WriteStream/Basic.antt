-- ===== src/WriteStream/Basic.antt =====
-- About the operations that src/write_stream.rs implements itself: bits, align, bytes.
use serialize_rs.Base.{ℕ, ◌+◌, ◌*◌, ◌%◌, ◌^◌, ◌≤◌, ◌≡◌, refl, arith, Bool, true, List, length}
use serialize_rs.Bytes.{IsBytes, le_value}
use serialize_rs.Outcome.{ok, enter}
use serialize_rs.BitWriter
use serialize_rs.BitWriter.{BitWriter, bits_available}
use serialize_rs.BitWriter.Valid.{IsValid}
use serialize_rs.BitWriter.Append.{Fits, write_bits-Appends}
use serialize_rs.BitWriter.Align.{write_align-Appends}
use serialize_rs.BitWriter.Block.{write_bytes-Appends}
use serialize_rs.WriteStream.{
  WriteStream, serialize_bits, serialize_align, serialize_bytes, has_room,
}
use serialize_rs.WriteStream.Writes.{Writes, Writes-enter, Writes-attempt, Writes-as}

module _ (checked : Bool) {s : WriteStream} (v : IsValid s.writer) where
  pub serialize_bits-Writes :
      (value bits : ℕ)
      → Fits s.writer value bits
      → Writes s value value bits (serialize_bits checked value bits s)
  unfolding serialize_bits
  serialize_bits-Writes value bits f =
      Writes-enter value (write_bits-Appends checked value bits v f)

  -- An align needs no room of its own, and pads with zeros.
  pub serialize_align-Writes :
      Writes s tt 0 (BitWriter.align_bits s.writer) (serialize_align checked s)
  unfolding serialize_align
  serialize_align-Writes = Writes-enter tt (write_align-Appends checked v)

  -- `WriteStream::serialize_bytes` with a valid writer and room for the padding and the bytes,
  -- in either build: no panic and no error; zero bits up to the next byte boundary are appended,
  -- then the bytes in order; the bytes are unchanged and the writer stays valid.
  pub serialize_bytes-Writes :
      (src : List ℕ)
      → IsBytes src
      → s.writer.bits_written + BitWriter.align_bits s.writer + 8 * length src ≤ s.writer.num_bits
      → Writes s src
          (2 ^ BitWriter.align_bits s.writer * le_value src)
          (BitWriter.align_bits s.writer + 8 * length src)
          (serialize_bytes checked src s)
  unfolding serialize_bytes
  serialize_bytes-Writes src hb room =
      let pad = serialize_align-Writes in
      let body : Writes pad.out src (le_value src) (8 * length src) (
          enter (BitWriter.write_bytes checked pad.out.writer src)
            λ writer. ok src (record { writer = writer })) =
        Writes-enter src (
          write_bytes-Appends checked pad.valid src (aligned pad) hb
            (omega (arith, pad.counted, pad.same_size))) in
      Writes-as
        (Writes-attempt pad src
          (λ _ s1.
            enter (BitWriter.write_bytes checked s1.writer src)
              λ writer. ok src (record { writer = writer }))
          body)
        (omega arith) refl (ground (arith, fits))
    where
      aligned :
          (pad : Writes s tt 0 (BitWriter.align_bits s.writer) (serialize_align checked s))
          → pad.out.writer.bits_written % 8 ≡ 0
      aligned pad = unfold BitWriter.align_bits in omega (arith, pad.counted)

      fits : has_room s.writer 0 (length src) ≡ true
      fits = unfold has_room BitWriter.align_bits bits_available in ground arith
