-- ===== src/Message/RoundTrip.antt =====
-- About a packet sent and received, from end to end.
use serialize_rs.Base.{
  ℕ, ◌+◌, ◌*◌, ◌/◌, ◌%◌, ◌^◌, ◌≤◌, ◌<◌, ◌≡◌, refl, ap, sym, ◌∙◌, arith, Bool, some, none, List,
  length,
}
use native.Mathlib.Nat.{mod-eq_of_lt, div-eq_of_lt, div-one}
use serialize_rs.Bytes.{IsBytes, le_value}
use serialize_rs.Outcome.{ok}
use serialize_rs.BitReader
use serialize_rs.BitReader.{BitReader}
use serialize_rs.BitReader.Valid.{packet, field, advance, advance-IsValid}
use serialize_rs.ReadStream
use serialize_rs.ReadStream.{ReadStream}
use serialize_rs.ReadStream.Start.{Starts, new-Starts}
use serialize_rs.ReadStream.Sees.{Sees, past, Sees-as}
use serialize_rs.ReadStream.End.{to_end, serialize_end_lem}
use serialize_rs.Message.{Kind, Values}
use serialize_rs.Message.Code.{AreDeclared, AreShaped, message_bits, message_code}
use serialize_rs.Message.Read.{serialize_message-Sees}
use serialize_rs.Message.Packet.{send, receive, Delivers, send-Delivers}

module _ (ks : List Kind) (vs : Values ks) (declared : AreDeclared ks vs) where
  Sees-start :
      (r : BitReader)
      → BitReader.Valid.IsValid r
      → packet r ≡ message_code ks vs 0
      → message_code ks vs 0 < 2 ^ message_bits ks vs 0
      → r.bits_read ≡ 0
      → message_bits ks vs 0 ≤ r.num_bits
      → Sees (record { reader = r; failed = none }) (message_code ks vs 0) (message_bits ks vs 0)
  unfolding field
  Sees-start r valid spelled small start room = record {
    fresh = refl;
    valid = valid;
    room = omega (arith, start);
    spelled =
        ap (λ (t : ℕ). packet r / 2 ^ t % 2 ^ message_bits ks vs 0) start
        ∙ ap (λ (t : ℕ). t % 2 ^ message_bits ks vs 0) (div-one (packet r) ∙ spelled)
        ∙ mod-eq_of_lt small;
  }

  -- Behind the fields fewer than 8 bits are left, all of them zeros.
  end_accepts :
      (checked : Bool) (s : ReadStream)
      → BitReader.Valid.IsValid s.reader
      → s.failed ≡ none
      → packet s.reader < 2 ^ s.reader.bits_read
      → to_end s < 8
      → ReadStream.serialize_end checked s ≡ ok tt (past s (to_end s))
  unfolding field
  end_accepts checked s valid fresh small near =
      serialize_end_lem checked valid fresh ∙ ground (arith, div-eq_of_lt small)

  pub receive_lem :
      (checked : Bool) (dest : Values ks) (buffer : List ℕ) (bytes : ℕ)
      → AreShaped ks dest
      → bytes ≤ length buffer
      → 8 * bytes < 2 ^ 64
      → IsBytes buffer
      → bytes ≡ (message_bits ks vs 0 + 7) / 8
      → le_value buffer % 2 ^ (8 * bytes) ≡ message_code ks vs 0
      → message_code ks vs 0 < 2 ^ message_bits ks vs 0
      → (s : ReadStream) × (receive checked ks dest buffer bytes ≡ ok vs s)
        × (s.failed ≡ none)
        × (s.reader.bits_read ≡ 8 * bytes)
  unfolding receive packet
  receive_lem checked dest buffer bytes shaped in_buffer fits are_bytes count spelled small =
      let b : Starts buffer bytes (ReadStream.new checked buffer bytes) =
        new-Starts checked buffer bytes are_bytes in_buffer fits in
      let whole : packet b.reader ≡ message_code ks vs 0 =
        ap (λ (xs : List ℕ). le_value xs % 2 ^ b.reader.num_bits) b.same_buffer
        ∙ ap (λ (t : ℕ). le_value buffer % 2 ^ t) b.size
        ∙ spelled in
      let seen = Sees-start b.reader b.valid whole small b.start (omega (arith, b.size)) in
      let s1 = past (record { reader = b.reader; failed = none }) (message_bits ks vs 0) in
      let behind : b.reader.bits_read + message_bits ks vs 0 ≡ message_bits ks vs 0 =
        omega (arith, b.start) in
      let inside : packet s1.reader < 2 ^ s1.reader.bits_read =
        omega (arith, whole, ap (λ (t : ℕ). 2 ^ t) behind) in
      let end =
        end_accepts checked s1
          (advance-IsValid (message_bits ks vs 0) b.valid (omega (arith, b.start, b.size))) refl
          inside (omega (arith, b.start, b.size)) in
      rw
        (
          b.returns,
          serialize_message-Sees checked ks dest vs shaped declared (
                Sees-as (message_code ks vs b.reader.bits_read)
                  (message_bits ks vs b.reader.bits_read) (ap (message_code ks vs) (sym b.start))
                  (ap (message_bits ks vs) (sym b.start)) seen)
              ∙ ap (λ (n : ℕ). ok vs (past (record { reader = b.reader; failed = none }) n))
                  (ap (message_bits ks vs) b.start),
          end,
        )
        (past s1 (to_end s1), refl, refl, omega (arith, b.start, b.size))

  -- The round trip. A packet is a list of fields (raw fields of up to 32 and of up to 64 bits,
  -- booleans, ranged integers of 32, 64 and 128 bits, fixed point values, 128-bit values, finite
  -- floats and doubles as their bits, relative integers, aligns, arrays of bytes, strings) with
  -- a value of each. If every field is well declared, every value is in its range and every
  -- string well-formed UTF-8 without NUL, and the buffer is whole words of 8 bytes, under 2^64
  -- bits, with room for the packet's bits, then in every combination of builds of the two sides:
  -- writing the fields and flushing delivers a buffer and the fewest bytes that hold the
  -- packet's bits; and a reader of exactly those bytes, whatever its destination held (its
  -- arrays of bytes being of their length), gets every value back, accepts `serialize_end`, has
  -- not failed, and stands behind the last byte.
  pub receive-send :
      (write_checked read_checked : Bool) (dest : Values ks) (buffer : List ℕ)
      → AreShaped ks dest
      → length buffer % 8 ≡ 0
      → 8 * length buffer < 2 ^ 64
      → IsBytes buffer
      → message_bits ks vs 0 ≤ 8 * length buffer
      → (sent : List ℕ) × (bytes : ℕ) × (s : ReadStream) × (send write_checked ks vs buffer
          ≡ some (sent, bytes))
        × (bytes ≡ (message_bits ks vs 0 + 7) / 8)
        × (receive read_checked ks dest sent bytes ≡ ok vs s)
        × (s.failed ≡ none)
        × (s.reader.bits_read ≡ 8 * bytes)
  receive-send write_checked read_checked dest buffer shaped whole fits are_bytes room =
      let d : Delivers (message_code ks vs 0) (message_bits ks vs 0)
          (send write_checked ks vs buffer) =
        send-Delivers ks vs declared write_checked buffer whole fits are_bytes room in
      let (s, returns, fresh, position) =
        receive_lem read_checked dest d.buffer d.bytes shaped d.in_buffer (omega (arith, d.count))
          d.are_bytes d.count d.spelled d.small in
      (d.buffer, d.bytes, s, d.returns, d.count, returns, fresh, position)
