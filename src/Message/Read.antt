-- ===== src/Message/Read.antt =====
-- A packet through a `ReadStream`.
use serialize_rs.Base.{ℕ, ◌+◌, ◌≡◌, ap, arith, Bool, List, [], ◌∷◌}
use serialize_rs.Outcome.{ok}
use serialize_rs.ReadStream.{ReadStream}
use serialize_rs.ReadStream.Strings.{read_strings}
use serialize_rs.ReadStream.Sees.{Sees, past, past-past, Sees-low, Sees-high, serialize_bits-Sees}
use serialize_rs.ReadStream.Decode.{
  serialize_int-Sees, serialize_int64-Sees, serialize_bits64-Sees, serialize_bool-Sees,
}
use serialize_rs.ReadStream.WideDecode.{serialize_u128-Sees, serialize_f32-Sees, serialize_f64-Sees}
use serialize_rs.ReadStream.GroupsDecode.{serialize_int128-Sees}
use serialize_rs.ReadStream.FixedDecode.{serialize_fixed-Sees}
use serialize_rs.ReadStream.RelativeDecode.{serialize_int_relative-Sees}
use serialize_rs.ReadStream.Blocks.{
  serialize_align-Sees, serialize_bytes-Sees, serialize_string-Sees,
}
use serialize_rs.Base.Int.{pos, negsuc}
use serialize_rs.Message.{
  Kind, bits_field, bits64_field, bool_field, int_field, int64_field, int128_field, fixed_field,
  u128_field, f32_field, f64_field, relative_field, align_field, bytes_field, string_field, Value,
  Values, serialize_field, serialize_message,
}
use serialize_rs.Message.Code.{
  Declared, AreDeclared, IsShaped, AreShaped, field_bits, field_code, field_code-lt, message_bits,
  message_code,
}

module _ (checked : Bool) where
  serialize_field-Sees :
      {s : ReadStream} (k : Kind) (dest v : Value k)
      → IsShaped k dest
      → Declared k v
      → Sees s (field_code k v s.reader.bits_read) (field_bits k v s.reader.bits_read)
      → serialize_field (read_strings checked) k dest s
        ≡ ok v (past s (field_bits k v s.reader.bits_read))
  unfolding serialize_field
  serialize_field-Sees (bits_field bits) dest n _ (lo, hi, small) seen =
      serialize_bits-Sees checked dest n bits lo hi seen
  serialize_field-Sees (bits64_field bits) dest n _ (lo, hi, small) seen =
      serialize_bits64-Sees checked dest n bits lo hi small seen
  serialize_field-Sees bool_field dest v _ h seen = serialize_bool-Sees checked dest v seen
  serialize_field-Sees (int_field min max) dest v _ (a, b, c, lo, hi) seen =
      serialize_int-Sees checked dest min v max lo hi a b c seen
  serialize_field-Sees (int64_field min max) dest v _ (a, b, c, lo, hi) seen =
      serialize_int64-Sees checked dest min v max lo hi a b c seen
  serialize_field-Sees (int128_field min max) dest v _ declared seen =
      serialize_int128-Sees checked _ dest min v max declared seen
  serialize_field-Sees (fixed_field t i f min max) dest v _ (format, fixed) seen =
      serialize_fixed-Sees checked _ t i f dest min v max format fixed seen
  serialize_field-Sees u128_field dest n _ small seen =
      serialize_u128-Sees checked dest n small seen
  serialize_field-Sees f32_field dest n _ (small, finite) seen =
      serialize_f32-Sees checked dest n finite seen
  serialize_field-Sees f64_field dest n _ (small, finite) seen =
      serialize_f64-Sees checked dest n small finite seen
  serialize_field-Sees (relative_field (pos p)) dest (pos m) _ (_, _, above, small) seen =
      serialize_int_relative-Sees checked p m above (omega arith) dest seen
  serialize_field-Sees (relative_field (negsuc p)) dest v _ (lo, _, _, _) seen =
      absurd (omega arith)
  serialize_field-Sees (relative_field (pos p)) dest (negsuc m) _ (_, lo, _, _) seen =
      absurd (omega arith)
  serialize_field-Sees align_field dest v _ h seen = serialize_align-Sees checked seen
  serialize_field-Sees (bytes_field count) dest v shaped (are_bytes, sized) seen =
      serialize_bytes-Sees checked dest v are_bytes (omega (arith, shaped, sized)) seen
  serialize_field-Sees (string_field buffer_size) dest v _
        (are_bytes, no_nul, well_formed, fits, small) seen =
      serialize_string-Sees checked dest v buffer_size are_bytes no_nul well_formed fits small seen

  -- A stream before a packet's code yields the packet, whatever stood in the destination, and
  -- steps past it.
  pub serialize_message-Sees :
      (ks : List Kind) (dest vs : Values ks) {s : ReadStream}
      → AreShaped ks dest
      → AreDeclared ks vs
      → Sees s (message_code ks vs s.reader.bits_read) (message_bits ks vs s.reader.bits_read)
      → serialize_message (read_strings checked) ks dest s
        ≡ ok vs (past s (message_bits ks vs s.reader.bits_read))
  unfolding serialize_message
  serialize_message-Sees [] dest vs {s} _ d seen =
      ap (λ (t : ℕ). ok vs (record s { reader = record (s.reader) { bits_read = t } }))
        (omega arith)
  serialize_message-Sees (k ∷ ks) (dest, dests) (v, vs) {s} (shaped, are_shaped) (d, ds) seen =
      let position = s.reader.bits_read in
      let bits = field_bits k v position in
      let behind = position + bits in
      let small = field_code-lt k v position d in
      let first =
        Sees-low bits (message_bits ks vs behind) (field_code k v position)
          (message_code ks vs behind) small seen in
      let rest =
        Sees-high bits (message_bits ks vs behind) (field_code k v position)
          (message_code ks vs behind) small seen in
      rw
        (
          serialize_field-Sees k dest v shaped d first,
          serialize_message-Sees ks dests vs are_shaped ds rest,
        )
        (past-past (v, vs) s bits (message_bits ks vs behind))
