-- ===== src/Message/Packet.antt =====
-- A packet from a writer's buffer to a reader's destination, as the example of src/lib.rs
-- takes it.
use serialize_rs.Base.{
  ℕ, ◌+◌, ◌*◌, ◌/◌, ◌%◌, ◌^◌, ◌≤◌, ◌<◌, ◌≡◌, ap, sym, ◌∙◌, arith, Bool, Option, some, none, List,
  length,
}
use serialize_rs.Bytes.{IsBytes, le_value, le_value-take}
use serialize_rs.Panic.{◌>>=◌}
use serialize_rs.Outcome.{Outcome, ok, err, panic, attempt, enter}
use serialize_rs.BitWriter
use serialize_rs.BitWriter.{bytes_written, data_slice, flush_bits}
use serialize_rs.BitWriter.Valid.{written, written-lt}
use serialize_rs.BitWriter.Align
use serialize_rs.BitWriter.Flush.{Flushes, flush_bits-Flushes, data_slice-Flushes}
use serialize_rs.WriteStream
use serialize_rs.WriteStream.{WriteStream, flush}
use serialize_rs.WriteStream.Strings.{write_strings}
use serialize_rs.ReadStream
use serialize_rs.ReadStream.{ReadStream}
use serialize_rs.ReadStream.Strings.{read_strings}
use serialize_rs.Message.{Kind, Values, serialize_message}
use serialize_rs.Message.Code.{AreDeclared, message_bits, message_code}
use serialize_rs.Message.Write.{serialize_message-Writes}

finish : Bool → WriteStream → Option (List ℕ × ℕ)
finish checked s = do s1 ← flush checked s; some (s1.writer.buffer, bytes_written s1.writer)

-- A writer over `buffer`, the fields, the flush: the buffer, and the bytes to send of it.
unfoldable pub send : Bool → (ks : List Kind) → Values ks → List ℕ → Option (List ℕ × ℕ)
unfolding finish
send checked ks vs buffer = do
  s ← WriteStream.new checked buffer
  elim (serialize_message (write_strings checked) ks vs s) [
    | ok _ s1 ↦ finish checked s1
    | err _ _ _ ↦ none
    | panic ↦ none
  ]

-- A reader over the bytes of `buffer`, the fields, the end.
unfoldable pub receive :
    Bool → (ks : List Kind) → Values ks → List ℕ → ℕ → Outcome (Values ks) ReadStream
receive checked ks dest buffer bytes = enter (ReadStream.new checked buffer bytes) λ s.
    attempt dest (serialize_message (read_strings checked) ks dest s)
      λ vs s1. attempt vs (ReadStream.serialize_end checked s1) λ _ s2. ok vs s2

-- `r` has delivered a buffer whose first `bytes` bytes spell `code` in `bits` bits.
pub record Delivers (code bits : ℕ) (r : Option (List ℕ × ℕ)) : Type 0 where
  pub buffer : List ℕ
  pub bytes : ℕ
  pub returns : r ≡ some (buffer, bytes)
  pub count : bytes ≡ (bits + 7) / 8
  pub in_buffer : bytes ≤ length buffer
  pub are_bytes : IsBytes buffer
  pub spelled : le_value buffer % 2 ^ (8 * bytes) ≡ code
  pub small : code < 2 ^ bits

Delivers-as :
    {code bits : ℕ} {r r' : Option (List ℕ × ℕ)}
    → r' ≡ r
    → Delivers code bits r
    → Delivers code bits r'
Delivers-as e d = record {
  buffer = d.buffer;
  bytes = d.bytes;
  returns = e ∙ d.returns;
  count = d.count;
  in_buffer = d.in_buffer;
  are_bytes = d.are_bytes;
  spelled = d.spelled;
  small = d.small;
}

finish-Delivers :
    (checked : Bool) (s : WriteStream) (code bits : ℕ)
    → BitWriter.Valid.IsValid s.writer
    → written s.writer ≡ code
    → s.writer.bits_written ≡ bits
    → Delivers code bits (finish checked s)
unfolding finish flush bytes_written data_slice
finish-Delivers checked s code bits valid spells counts =
    let f : Flushes s.writer (flush_bits checked s.writer) = flush_bits-Flushes checked valid in
    let (len, spelled) = data_slice-Flushes checked valid f in
    record {
      buffer = f.out.buffer;
      bytes = (f.out.bits_written + 7) / 8;
      returns = ground (arith, f.returns);
      count = omega (arith, f.counted);
      in_buffer = omega (arith, f.enough, f.in_buffer);
      are_bytes = f.bytes;
      spelled =
          sym (le_value-take ((f.out.bits_written + 7) / 8) f.out.buffer f.bytes)
          ∙ spelled
          ∙ spells;
      small = omega (arith, written-lt valid, spells, ap (λ (t : ℕ). 2 ^ t) counts);
    }

module _ (ks : List Kind) (vs : Values ks) (declared : AreDeclared ks vs) where
  message-Delivers :
      (checked : Bool) (w : BitWriter.BitWriter)
      → BitWriter.Valid.IsValid w
      → written w ≡ 0
      → w.bits_written ≡ 0
      → message_bits ks vs 0 ≤ w.num_bits
      → Delivers
          (message_code ks vs 0)
          (message_bits ks vs 0)
          (elim (serialize_message (write_strings checked) ks vs (record { writer = w }))
            as (λ _. Option (List ℕ × ℕ)) [
              | ok _ s1 ↦ finish checked s1
              | err _ _ _ ↦ none
              | panic ↦ none
            ])
  message-Delivers checked w valid nothing start room =
      let done =
        serialize_message-Writes checked ks vs {s = record { writer = w }} valid declared
          (omega (arith, start, ap (message_bits ks vs) start)) in
      let bits = ap (message_bits ks vs) start in
      let code = ap (message_code ks vs) start in
      rw done.returns (
        finish-Delivers checked done.out (message_code ks vs 0) (message_bits ks vs 0) done.valid
          (omega (
            arith,
            done.appended,
            nothing,
            ap (λ (t : ℕ). 2 ^ t) start,
            ap (λ (t : ℕ). 2 ^ t * message_code ks vs w.bits_written) start,
            code,
          ))
          (omega (arith, done.counted, start, bits)))

  pub send-Delivers :
      (checked : Bool) (buffer : List ℕ)
      → length buffer % 8 ≡ 0
      → 8 * length buffer < 2 ^ 64
      → IsBytes buffer
      → message_bits ks vs 0 ≤ 8 * length buffer
      → Delivers (message_code ks vs 0) (message_bits ks vs 0) (send checked ks vs buffer)
  unfolding send WriteStream.new
  send-Delivers checked buffer whole fits are_bytes room =
      let (w, returns, valid, nothing, start, size) =
        BitWriter.Align.new-IsValid checked buffer whole fits are_bytes in
      rw returns (message-Delivers checked w valid nothing start (omega (arith, size)))
