-- ===== src/Tests/Streams.antt =====
-- Runs of the operations on streams.
use serialize_rs.Base.{ℕ, ◌+◌, ◌*◌, ◌%◌, ◌^◌, ◌<◌, ◌≡◌, refl, arith, true, List, [], ◌∷◌, length}
use serialize_rs.Bytes.{IsBytes, le_value}
use serialize_rs.Base.Int.{pos, negsuc}
use serialize_rs.Error.{rejected}
use serialize_rs.Outcome.{Outcome, err}
use serialize_rs.BitWriter
use serialize_rs.Stream.Raw.{serialize_bits64}
use serialize_rs.Stream.Ranged.{serialize_int, serialize_int64}
use serialize_rs.ReadStream
use serialize_rs.ReadStream.{ReadStream, serialize_object}
use serialize_rs.ReadStream.Obligations.{Obeys}
use serialize_rs.ReadStream.Object.{Gates, serialize_object-Gates}
use serialize_rs.ReadStream.Basic.{
  serialize_bits-Obeys, serialize_align-Obeys, serialize_bytes-Obeys,
}
use serialize_rs.ReadStream.Raw.{Below, serialize_bits64-Obeys}
use serialize_rs.ReadStream.Ranged.{Between, serialize_int-Obeys, serialize_int64-Obeys}
use serialize_rs.ReadStream.End.{end_result, serialize_end_lem}
use serialize_rs.WriteStream
use serialize_rs.WriteStream.Writes.{Writes}
use serialize_rs.WriteStream.Basic.{serialize_bytes-Writes}
use serialize_rs.Tests.{reader-IsValid, writer-IsValid, read_stream, write_stream}

serialize_bits-Obeys_example :
    Obeys (λ n _. n < 2 ^ 33) 7 read_stream (ReadStream.serialize_bits true 7 33 read_stream)
serialize_bits-Obeys_example =
    serialize_bits-Obeys true 7 33 read_stream reader-IsValid (omega arith)

serialize_align-Obeys_example :
    Obeys
      (λ _ s. s.reader.bits_read % 8 ≡ 0)
      tt
      read_stream
      (ReadStream.serialize_align true read_stream)
serialize_align-Obeys_example = serialize_align-Obeys true read_stream reader-IsValid

abbrev room : List ℕ
room = 0 ∷ 0 ∷ 0 ∷ []

serialize_bytes-Obeys_example :
    Obeys
      (λ found _. (length found ≡ length room) × IsBytes found)
      room
      read_stream
      (ReadStream.serialize_bytes true room read_stream)
serialize_bytes-Obeys_example = serialize_bytes-Obeys true room read_stream reader-IsValid

serialize_int-Obeys_example :
    Obeys
      (Between (negsuc 999) (pos 1000))
      (pos 0)
      read_stream
      (serialize_int (ReadStream.read_stream true) (pos 0) (negsuc 999) (pos 1000) read_stream)
serialize_int-Obeys_example =
    serialize_int-Obeys true (pos 0) (negsuc 999) (pos 1000) read_stream (omega arith) (omega arith)
      reader-IsValid

serialize_int64-Obeys_example :
    Obeys
      (Between (negsuc 5) (pos (2 ^ 40)))
      (pos 0)
      read_stream
      (serialize_int64 (ReadStream.read_stream true) (pos 0) (negsuc 5) (pos (2 ^ 40)) read_stream)
serialize_int64-Obeys_example =
    serialize_int64-Obeys true (pos 0) (negsuc 5) (pos (2 ^ 40)) read_stream (omega arith)
      (omega arith) reader-IsValid

serialize_bits64-Obeys_example :
    Obeys (Below 48) 9 read_stream (serialize_bits64 (ReadStream.read_stream true) 9 48 read_stream)
serialize_bits64-Obeys_example = serialize_bits64-Obeys true 9 48 read_stream reader-IsValid

serialize_end_lem_example : ReadStream.serialize_end true read_stream ≡ end_result read_stream
serialize_end_lem_example = serialize_end_lem true {s = read_stream} reader-IsValid refl

-- An object that refuses a value on its own, without latching.
abbrev refusing_object : ℕ → ReadStream → Outcome ℕ ReadStream
refusing_object n s = err rejected n s

serialize_object-Gates_example :
    Gates refusing_object 4 read_stream (serialize_object refusing_object 4 read_stream)
serialize_object-Gates_example = serialize_object-Gates refusing_object 4 read_stream

abbrev payload : List ℕ
payload = 0xca ∷ 0xfe ∷ 0x07 ∷ []

serialize_bytes-Writes_example :
    Writes write_stream payload
      (2 ^ BitWriter.align_bits write_stream.writer * le_value payload)
      (BitWriter.align_bits write_stream.writer + 8 * length payload)
      (WriteStream.serialize_bytes true payload write_stream)
serialize_bytes-Writes_example =
    serialize_bytes-Writes true {s = write_stream} writer-IsValid payload (ground arith)
      (unfold BitWriter.align_bits in omega arith)
