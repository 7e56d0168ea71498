-- ===== src/Message/Sized.antt =====
-- A buffer sized by a `MeasureStream` for the writer, as src/measure_stream.rs is meant to be used.
use serialize_rs.Base.{
  ℕ, ◌+◌, ◌*◌, ◌%◌, ◌^◌, ◌≤◌, ◌<◌, ◌≡◌, ap, sym, ◌∙◌, arith, Bool, List, length,
}
use serialize_rs.Bytes.{IsBytes}
use serialize_rs.Outcome.{Outcome, ok, err, panic}
use serialize_rs.MeasureStream
use serialize_rs.MeasureStream.{MeasureStream}
use serialize_rs.MeasureStream.Strings.{measure_strings}
use serialize_rs.Message.{Kind, Values, serialize_message}
use serialize_rs.Message.Code.{AreDeclared, message_bits, message_code}
use serialize_rs.Message.Measure.{
  message_slack, message_measure, message_measure_lem, serialize_message-counted_exactly,
}
use serialize_rs.Message.Packet.{send, Delivers, send-Delivers}

abbrev count_of : {A : Type 0} → Outcome A MeasureStream → ℕ
count_of (ok _ s) = s.bits_written
count_of (err _ _ s) = s.bits_written
count_of panic = 0

-- A buffer that is sized by measuring is large enough. If a packet's fields are well declared,
-- with values in range, and a new `MeasureStream`, in either build, has taken them and counts no
-- more bits than a buffer of whole words of 8 bytes holds (the buffer's bits, and the packet's
-- with 7 more for each align, array of bytes and string, being under 2^64), then writing the
-- packet to that buffer and flushing, in either build, does not panic or fail, and delivers the
-- packet's bits in the fewest bytes that hold them, inside the buffer.
pub measured-send :
    (ks : List Kind) (vs ws : Values ks) (m : MeasureStream) (measure_checked checked : Bool)
    (buffer : List ℕ)
    → AreDeclared ks vs
    → message_bits ks vs 0 + message_slack ks < 2 ^ 64
    → serialize_message (measure_strings measure_checked) ks vs MeasureStream.new ≡ ok ws m
    → length buffer % 8 ≡ 0
    → 8 * length buffer < 2 ^ 64
    → IsBytes buffer
    → m.bits_written ≤ 8 * length buffer
    → Delivers (message_code ks vs 0) (message_bits ks vs 0) (send checked ks vs buffer)
measured-send ks vs ws m measure_checked checked buffer declared small measured whole fits are_bytes
      room =
    let (least, most) = message_measure_lem ks vs 0 in
    let exact =
      serialize_message-counted_exactly measure_checked ks vs MeasureStream.new declared
        (omega arith) in
    let same : 0 + message_measure ks vs ≡ m.bits_written = ap count_of (sym exact ∙ measured) in
    send-Delivers ks vs declared checked buffer whole fits are_bytes (omega arith)
