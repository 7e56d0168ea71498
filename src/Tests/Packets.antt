-- ===== src/Tests/Packets.antt =====
-- A packet as in the example of src/lib.rs (a position, a health, whether alive) with more fields
-- behind: a sequence number, a name, a 128-bit value, a 128-bit integer in a range, a fixed point value, an align, a float, two bytes.
use serialize_rs.Base.{
  ℕ, ◌+◌, ◌*◌, ◌/◌, ◌≤◌, ◌≡◌, refl, arith, true, false, some, none, List, [], ◌∷◌, take,
}
use serialize_rs.Base.Int.{pos, negsuc}
use serialize_rs.Outcome.{ok}
use serialize_rs.BitsRequired.{bits_required_word}
use serialize_rs.ReadStream.{ReadStream}
use serialize_rs.MeasureStream
use serialize_rs.MeasureStream.{MeasureStream}
use serialize_rs.MeasureStream.Strings.{measure_strings}
use serialize_rs.MeasureStream.Shared.{counted}
use serialize_rs.Message.{
  Kind, bool_field, int_field, relative_field, string_field, u128_field, int128_field, fixed_field,
  align_field, f32_field, bytes_field, Values, serialize_message,
}
use serialize_rs.Message.Code.{AreDeclared, message_bits, message_code}
use serialize_rs.Message.Measure.{
  message_slack, serialize_message-counted_exactly, serialize_message-counted,
}
use serialize_rs.Message.Sized.{measured-send}
use serialize_rs.Message.Packet.{send, receive, Delivers}
use serialize_rs.Message.RoundTrip.{receive-send, receive_lem}
use serialize_rs.Message.Canonical.{send-receive}
use serialize_rs.Message.Received.{Safe, receive-Safe}
use serialize_rs.Bytes.{le_value}
use serialize_rs.Text.{lead, utf8_from}
use serialize_rs.Tests.{zeros, packet_bytes}

abbrev packet : List Kind
packet =
    int_field (negsuc 999) (pos 1000)
    ∷ int_field (pos 0) (pos 100)
    ∷ bool_field
    ∷ relative_field (pos 100)
    ∷ string_field 16
    ∷ u128_field
    ∷ int128_field (negsuc 0) (pos 1099511627776)
    ∷ fixed_field (record { bits = 32; signed = true }) 16 16 (negsuc 9) (pos 10)
    ∷ align_field
    ∷ f32_field
    ∷ bytes_field 2
    ∷ []

-- The text is "Hé", the fixed point value -1.5, the float 1.0.
abbrev sample : Values packet
sample = (
  negsuc 19,
  (
    pos 55,
    (
      true,
      (
        pos 105,
        (
          (0x48 ∷ 0xc3 ∷ 0xa9 ∷ []),
          (7, (pos 3, (negsuc 98303, (tt, (0x3f80_0000, ((1 ∷ 255 ∷ []), tt)))))),
        ),
      ),
    ),
  ),
)

abbrev default : Values packet
default =
    (pos 0, (pos 0, (false, (pos 0, ([], (0, (pos 0, (pos 0, (tt, (0, ((0 ∷ 0 ∷ []), tt)))))))))))

sample-AreDeclared : AreDeclared packet sample
unfolding utf8_from lead
sample-AreDeclared = ground arith

packet_bits : message_bits packet sample 0 ≡ 296
unfolding bits_required_word
packet_bits = refl

receive-send_example :
    (sent : List ℕ) × (bytes : ℕ) × (s : ReadStream) × (send true packet sample (zeros 64)
      ≡ some (sent, bytes))
    × (bytes ≡ (message_bits packet sample 0 + 7) / 8)
    × (receive false packet default sent bytes ≡ ok sample s)
    × (s.failed ≡ none)
    × (s.reader.bits_read ≡ 8 * bytes)
receive-send_example =
    receive-send packet sample sample-AreDeclared true false default (zeros 64) (ground arith) refl
      (omega arith) (ground arith) (omega (arith, packet_bits))

receive-Safe_example : Safe packet 10 (receive true packet default packet_bytes 10)
receive-Safe_example =
    receive-Safe true packet default packet_bytes 10 (ground arith) (ground arith) (ground arith)
      (omega arith)

serialize_message-counted_example :
    (n : ℕ) × (serialize_message (measure_strings true) packet sample MeasureStream.new
      ≡ ok sample (counted MeasureStream.new n))
    × (message_bits packet sample 0 ≤ n)
    × (n ≤ message_bits packet sample 0 + message_slack packet)
serialize_message-counted_example =
    serialize_message-counted true packet sample MeasureStream.new 0 sample-AreDeclared
      (omega (arith, packet_bits))

abbrev measured : MeasureStream
measured = record { bits_written = 311 }

measures :
    serialize_message (measure_strings false) packet sample MeasureStream.new ≡ ok sample measured
unfolding bits_required_word
measures =
    serialize_message-counted_exactly false packet sample MeasureStream.new sample-AreDeclared
      (omega arith)

measured-send_example :
    Delivers
      (message_code packet sample 0)
      (message_bits packet sample 0)
      (send true packet sample (zeros 48))
measured-send_example =
    measured-send packet sample sample measured false true (zeros 48) sample-AreDeclared
      (omega (arith, packet_bits)) measures refl (omega arith) (ground arith) (omega arith)

-- A health, whether alive, and a sequence number, in two bytes.
abbrev short : List Kind
short = int_field (pos 0) (pos 100) ∷ bool_field ∷ relative_field (pos 100) ∷ []

abbrev short_sample : Values short
short_sample = (pos 55, (true, (pos 105, tt)))

abbrev short_bytes : List ℕ
short_bytes = 0xb7 ∷ 0x0e ∷ []

short_accepted :
    (s : ReadStream) × (receive true short (pos 0, (false, (pos 0, tt))) short_bytes 2
      ≡ ok short_sample s)
unfolding bits_required_word le_value
short_accepted =
    let (s, returns, _, _) =
      receive_lem short short_sample (ground arith) true (pos 0, (false, (pos 0, tt))) short_bytes 2
        (ground arith) (omega arith) (omega arith) (ground arith) refl refl (omega arith) in
    (s, returns)

send-receive_example :
    (sent : List ℕ) × (send false short short_sample (zeros 8) ≡ some (sent, 2))
    × (take 2 sent ≡ take 2 short_bytes)
send-receive_example =
    send-receive true short (pos 0, (false, (pos 0, tt))) short_bytes 2 (ground arith)
      (ground arith) (ground arith) (omega arith) (omega arith) short_sample (short_accepted.0)
      false (zeros 8) (short_accepted.1) refl (omega arith) (ground arith) (omega arith)
