-- ===== src/Tests/Wide.antt =====
-- Runs of the wide operations, and of the writer's twins.
use serialize_rs.Base.{ℕ, ◌^◌, ◌≡◌, refl, arith, true, false, List, [], ◌∷◌}
use serialize_rs.Base.Int.{pos, negsuc}
use serialize_rs.Stream.Raw.{
  serialize_bool, serialize_u8, serialize_u16, serialize_u32, serialize_u64,
}
use serialize_rs.Stream.Wide.{serialize_f32, serialize_f64, serialize_int128, float_bits_are_finite}
use serialize_rs.Stream.Fixed.{FixedPointStorage, serialize_fixed}
use serialize_rs.Stream.Format.{IsFixed}
use serialize_rs.ReadStream
use serialize_rs.ReadStream.Fixed.{serialize_fixed-Obeys}
use serialize_rs.ReadStream.Obligations.{Obeys}
use serialize_rs.ReadStream.Ranged.{Between}
use serialize_rs.ReadStream.Floats.{Finite32, Finite64, serialize_f32-Obeys, serialize_f64-Obeys}
use serialize_rs.ReadStream.Wide.{serialize_int128-Obeys}
use serialize_rs.WriteStream
use serialize_rs.WriteStream.Twins.{
  dropped, write_bytes, write_bits, write_bool, write_u8, write_u16, write_u32, write_u64,
  twins-dropped,
}
use serialize_rs.Tests.{reader-IsValid, read_stream, write_stream}

serialize_f32-Obeys_example :
    Obeys Finite32 7 read_stream (serialize_f32 (ReadStream.read_stream true) 7 read_stream)
serialize_f32-Obeys_example = serialize_f32-Obeys true 7 read_stream reader-IsValid

serialize_f64-Obeys_example :
    Obeys Finite64 7 read_stream (serialize_f64 (ReadStream.read_stream true) 7 read_stream)
serialize_f64-Obeys_example = serialize_f64-Obeys true 7 read_stream reader-IsValid

serialize_int128-Obeys_example :
    Obeys
      (Between (negsuc 5) (pos (2 ^ 60)))
      (pos 0)
      read_stream
      (serialize_int128 (ReadStream.read_stream true) (pos 0) (negsuc 5) (pos (2 ^ 60)) read_stream)
serialize_int128-Obeys_example =
    serialize_int128-Obeys true (pos 0) (negsuc 5) (pos (2 ^ 60)) read_stream (omega arith)
      (omega arith) reader-IsValid

abbrev payload : List ℕ
payload = 0xca ∷ 0xfe ∷ 0x07 ∷ []

twins-dropped_example :
    (write_bytes true payload write_stream
      ≡ dropped (WriteStream.serialize_bytes true payload write_stream))
    × (write_bits true 5 3 write_stream
        ≡ dropped (WriteStream.serialize_bits true 5 3 write_stream))
    × (write_bool true false write_stream
        ≡ dropped (serialize_bool (WriteStream.write_stream true) false write_stream))
    × (write_u8 true 5 write_stream
        ≡ dropped (serialize_u8 (WriteStream.write_stream true) 5 write_stream))
    × (write_u16 true 5 write_stream
        ≡ dropped (serialize_u16 (WriteStream.write_stream true) 5 write_stream))
    × (write_u32 true 5 write_stream
        ≡ dropped (serialize_u32 (WriteStream.write_stream true) 5 write_stream))
    × (write_u64 true 5 write_stream
        ≡ dropped (serialize_u64 (WriteStream.write_stream true) 5 write_stream))
twins-dropped_example = twins-dropped true write_stream payload 5 3 false

infinity_refused : float_bits_are_finite 0xff80_0000 ≡ false
infinity_refused = refl

one_and_a_half : float_bits_are_finite 0x3fc0_0000 ≡ true
one_and_a_half = refl

-- Sixteen integer and sixteen fraction bits, from -10 to 10.
abbrev q16 : FixedPointStorage
q16 = record { bits = 32; signed = true }

serialize_fixed-Obeys_example :
    Obeys
      (λ v _. IsFixed q16 16 (negsuc 9) (pos 10) v)
      (pos 0)
      read_stream
      (serialize_fixed
        (ReadStream.read_stream true)
        q16
        (pos 0)
        16
        16
        (negsuc 9)
        (pos 10)
        read_stream)
serialize_fixed-Obeys_example =
    serialize_fixed-Obeys true q16 16 16 (negsuc 9) (pos 10) (pos 0) read_stream (omega arith)
      (omega arith) (omega arith) reader-IsValid
