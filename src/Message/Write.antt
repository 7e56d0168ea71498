-- ===== src/Message/Write.antt =====
-- A packet through a `WriteStream`.
use serialize_rs.Base.{ℕ, ◌+◌, ◌*◌, ◌^◌, ◌≤◌, ap, refl, arith, Bool, List, [], ◌∷◌}
use serialize_rs.Outcome.{ok, attempt_into}
use serialize_rs.BitWriter.Valid.{IsValid}
use serialize_rs.WriteStream.{WriteStream}
use serialize_rs.WriteStream.Strings.{write_strings}
use serialize_rs.WriteStream.Writes.{Writes, Writes-none, Writes-as, Writes-into, Writes-last_into}
use serialize_rs.WriteStream.Basic.{
  serialize_bits-Writes, serialize_align-Writes, serialize_bytes-Writes,
}
use serialize_rs.WriteStream.Shared.{
  serialize_int-Writes, serialize_int64-Writes, serialize_bits64-Writes, serialize_bool-Writes,
}
use serialize_rs.WriteStream.Wide.{
  serialize_u128-Writes, serialize_f32-Writes, serialize_f64-Writes,
}
use serialize_rs.WriteStream.Groups.{serialize_int128-Writes}
use serialize_rs.WriteStream.Fixed.{serialize_fixed-Writes}
use serialize_rs.WriteStream.Relative.{serialize_int_relative-Writes}
use serialize_rs.WriteStream.Text.{serialize_string-Writes}
use serialize_rs.Base.Int.{pos, negsuc}
use serialize_rs.BitWriter
use serialize_rs.Message.{
  Kind, bits_field, bits64_field, bool_field, int_field, int64_field, int128_field, fixed_field,
  u128_field, f32_field, f64_field, relative_field, align_field, bytes_field, string_field, Value,
  Values, serialize_field, serialize_message,
}
use serialize_rs.Message.Code.{
  Declared, AreDeclared, field_bits, field_code, message_bits, message_code,
}

module _ (checked : Bool) where
  serialize_field-Writes :
      {s : WriteStream}
      → IsValid s.writer
      → (k : Kind) (v : Value k) → Declared k v
      → s.writer.bits_written + field_bits k v s.writer.bits_written ≤ s.writer.num_bits
      → Writes s v
          (field_code k v s.writer.bits_written)
          (field_bits k v s.writer.bits_written)
          (serialize_field (write_strings checked) k v s)
  unfolding serialize_field BitWriter.align_bits
  serialize_field-Writes valid (bits_field bits) n (lo, hi, small) room =
      serialize_bits-Writes checked valid n bits
        (record { wide = lo; narrow = hi; small = small; space = room })
  serialize_field-Writes valid (bits64_field bits) n (lo, hi, small) room =
      serialize_bits64-Writes checked valid n bits lo hi small room
  serialize_field-Writes valid bool_field v h room = serialize_bool-Writes checked valid v room
  serialize_field-Writes valid (int_field min max) v (a, b, c, lo, hi) room =
      serialize_int-Writes checked valid min v max lo hi a b c room
  serialize_field-Writes valid (int64_field min max) v (a, b, c, lo, hi) room =
      serialize_int64-Writes checked valid min v max lo hi a b c room
  serialize_field-Writes valid (int128_field min max) v declared room =
      serialize_int128-Writes checked valid min v max declared room
  serialize_field-Writes valid (fixed_field t i f min max) v (format, fixed) room =
      serialize_fixed-Writes checked valid t i f min v max format fixed room
  serialize_field-Writes valid u128_field n small room =
      serialize_u128-Writes checked valid n small room
  serialize_field-Writes valid f32_field n (small, finite) room =
      serialize_f32-Writes checked valid n small finite room
  serialize_field-Writes valid f64_field n (small, finite) room =
      serialize_f64-Writes checked valid n small finite room
  serialize_field-Writes valid (relative_field (pos p)) (pos m) (_, _, above, small) room =
      serialize_int_relative-Writes checked p m above (omega arith) valid room
  serialize_field-Writes valid (relative_field (negsuc p)) v (lo, _, _, _) room =
      absurd (omega arith)
  serialize_field-Writes valid (relative_field (pos p)) (negsuc m) (_, lo, _, _) room =
      absurd (omega arith)
  serialize_field-Writes valid align_field v h room = serialize_align-Writes checked valid
  serialize_field-Writes valid (bytes_field count) v (are_bytes, _) room =
      serialize_bytes-Writes checked valid v are_bytes (omega arith)
  serialize_field-Writes valid (string_field buffer_size) v (are_bytes, no_nul, _, fits, small)
        room =
      serialize_string-Writes checked valid v buffer_size are_bytes no_nul fits small room

  -- Writing a packet whose fields are well declared, with values in range, to a `WriteStream`
  -- with a valid writer and room for it, in either build: no panic and no error; the fields'
  -- codes are appended one behind the other; the values are unchanged and the writer stays
  -- valid.
  pub serialize_message-Writes :
      (ks : List Kind) (vs : Values ks) {s : WriteStream}
      → IsValid s.writer
      → AreDeclared ks vs
      → s.writer.bits_written + message_bits ks vs s.writer.bits_written ≤ s.writer.num_bits
      → Writes s vs
          (message_code ks vs s.writer.bits_written)
          (message_bits ks vs s.writer.bits_written)
          (serialize_message (write_strings checked) ks vs s)
  unfolding serialize_message
  serialize_message-Writes [] vs valid d room = Writes-none vs valid
  serialize_message-Writes (k ∷ ks) (v, vs) {s} valid (d, ds) room =
      let first = serialize_field-Writes valid k v d (omega arith) in
      let rest =
        serialize_message-Writes ks vs first.valid ds
          (omega (arith, first.counted, first.same_size, ap (message_bits ks vs) first.counted)) in
      Writes-as
        (Writes-into first (λ v'. (v', vs))
          (λ v' s1.
            attempt_into (λ vs'. (v', vs')) (serialize_message (write_strings checked) ks vs s1)
              λ vs' s2. ok (v', vs') s2)
          (Writes-last_into rest (λ vs'. (v, vs')) (λ vs' s2. ok (v, vs') s2) refl))
        (ap
          (λ (q : ℕ).
            field_code k v s.writer.bits_written
            + 2 ^ field_bits k v s.writer.bits_written * message_code ks vs q)
          first.counted)
        (ap (λ (q : ℕ). field_bits k v s.writer.bits_written + message_bits ks vs q) first.counted)
        refl
