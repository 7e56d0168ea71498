-- ===== src/Message/Measure.antt =====
-- A packet through a `MeasureStream`.
use serialize_rs.Base.{ℕ, ◌+◌, ◌*◌, ◌^◌, ◌≤◌, ◌<◌, ◌≡◌, length, ap, arith, Bool, List, [], ◌∷◌}
use serialize_rs.Outcome.{ok}
use serialize_rs.MeasureStream.{MeasureStream}
use serialize_rs.MeasureStream.Strings.{measure_strings}
use serialize_rs.MeasureStream.Shared.{
  counted, serialize_bits-counted, serialize_int-counted, serialize_int64-counted,
  serialize_bits64-counted, serialize_bool-counted,
}
use serialize_rs.MeasureStream.Fields.{
  counted-counted, serialize_align-counted, serialize_bytes-counted, serialize_string-counted,
  serialize_u128-counted, serialize_f32-counted, serialize_f64-counted,
  serialize_int_relative-counted,
}
use serialize_rs.MeasureStream.Groups.{serialize_int128-counted}
use serialize_rs.MeasureStream.Fixed.{serialize_fixed-counted}
use serialize_rs.Stream.StringCode.{length_bits}
use serialize_rs.Base.Int.{pos, negsuc}
use serialize_rs.Message.{
  Kind, bits_field, bits64_field, bool_field, int_field, int64_field, int128_field, fixed_field,
  u128_field, f32_field, f64_field, relative_field, align_field, bytes_field, string_field, Value,
  Values, serialize_field, serialize_message,
}
use serialize_rs.Message.Code.{Declared, AreDeclared, field_bits, message_bits}

-- An align counts the most that it can take.
abbrev pub field_measure : (k : Kind) → Value k → ℕ
field_measure align_field v = 7
field_measure (bytes_field count) v = 7 + 8 * length v
field_measure (string_field buffer_size) v = length_bits buffer_size + (7 + 8 * length v)
field_measure k v = field_bits k v 0

abbrev pub message_measure : (ks : List Kind) → Values ks → ℕ
message_measure [] vs = 0
message_measure (k ∷ ks) (v, vs) = field_measure k v + message_measure ks vs

-- What padding may take beyond what it does.
abbrev pub field_slack : Kind → ℕ
field_slack align_field = 7
field_slack (bytes_field count) = 7
field_slack (string_field buffer_size) = 7
field_slack k = 0

abbrev pub message_slack : List Kind → ℕ
message_slack [] = 0
message_slack (k ∷ ks) = field_slack k + message_slack ks

field_measure_lem :
    (k : Kind) (v : Value k) (position : ℕ)
    → (field_bits k v position ≤ field_measure k v)
      × (field_measure k v ≤ field_bits k v position + field_slack k)
field_measure_lem (bits_field bits) n position = omega arith
field_measure_lem (bits64_field bits) n position = omega arith
field_measure_lem bool_field v position = omega arith
field_measure_lem (int_field min max) v position = omega arith
field_measure_lem (int64_field min max) v position = omega arith
field_measure_lem (int128_field min max) v position = omega arith
field_measure_lem (fixed_field t i f min max) v position = omega arith
field_measure_lem u128_field n position = omega arith
field_measure_lem f32_field n position = omega arith
field_measure_lem f64_field n position = omega arith
field_measure_lem (relative_field previous) v position = omega arith
field_measure_lem align_field v position = omega arith
field_measure_lem (bytes_field count) v position = omega arith
field_measure_lem (string_field buffer_size) v position = omega arith

pub message_measure_lem :
    (ks : List Kind) (vs : Values ks) (position : ℕ)
    → (message_bits ks vs position ≤ message_measure ks vs)
      × (message_measure ks vs ≤ message_bits ks vs position + message_slack ks)
message_measure_lem [] vs position = omega arith
message_measure_lem (k ∷ ks) (v, vs) position = omega (
  arith,
  field_measure_lem k v position,
  message_measure_lem ks vs (position + field_bits k v position),
)

module _ (checked : Bool) where
  serialize_field-counted :
      (k : Kind) (v : Value k) (s : MeasureStream)
      → Declared k v
      → s.bits_written + field_measure k v < 2 ^ 64
      → serialize_field (measure_strings checked) k v s ≡ ok v (counted s (field_measure k v))
  unfolding serialize_field
  serialize_field-counted (bits_field bits) n s (lo, hi, small) room =
      serialize_bits-counted checked s n bits lo hi small room
  serialize_field-counted (bits64_field bits) n s (lo, hi, small) room =
      serialize_bits64-counted checked s n bits lo hi small room
  serialize_field-counted bool_field v s _ room = serialize_bool-counted checked s v room
  serialize_field-counted (int_field min max) v s (a, b, c, lo, hi) room =
      serialize_int-counted checked s min v max lo hi a b c room
  serialize_field-counted (int64_field min max) v s (a, b, c, lo, hi) room =
      serialize_int64-counted checked s min v max lo hi a b c room
  serialize_field-counted (int128_field min max) v s declared room =
      serialize_int128-counted checked s min v max declared room
  serialize_field-counted (fixed_field t i f min max) v s (format, fixed) room =
      serialize_fixed-counted checked s t i f min v max format fixed room
  serialize_field-counted u128_field n s small room = serialize_u128-counted checked s n small room
  serialize_field-counted f32_field n s (small, finite) room =
      serialize_f32-counted checked s n small finite room
  serialize_field-counted f64_field n s (small, finite) room =
      serialize_f64-counted checked s n small finite room
  serialize_field-counted (relative_field (pos p)) (pos m) s (_, _, above, small) room =
      serialize_int_relative-counted checked p m above (omega arith) s room
  serialize_field-counted (relative_field (negsuc p)) v s (lo, _, _, _) room = absurd (omega arith)
  serialize_field-counted (relative_field (pos p)) (negsuc m) s (_, lo, _, _) room =
      absurd (omega arith)
  serialize_field-counted align_field v s _ room = serialize_align-counted checked s room
  serialize_field-counted (bytes_field count) v s _ room = serialize_bytes-counted checked s v room
  serialize_field-counted (string_field buffer_size) v s (_, no_nul, _, fits, small) room =
      serialize_string-counted checked s v buffer_size no_nul fits small room

  pub serialize_message-counted_exactly :
      (ks : List Kind) (vs : Values ks) (s : MeasureStream)
      → AreDeclared ks vs
      → s.bits_written + message_measure ks vs < 2 ^ 64
      → serialize_message (measure_strings checked) ks vs s
        ≡ ok vs (counted s (message_measure ks vs))
  unfolding serialize_message
  serialize_message-counted_exactly [] vs s _ room =
      ap (λ (t : ℕ). ok vs (record { bits_written = t })) (omega arith)
  serialize_message-counted_exactly (k ∷ ks) (v, vs) s (d, ds) room =
      rw
        (
          serialize_field-counted k v s d (omega arith),
          serialize_message-counted_exactly ks vs (counted s (field_measure k v)) ds (omega arith),
        )
        (counted-counted (v, vs) s (field_measure k v) (message_measure ks vs))

  -- Measuring a packet whose fields are well declared, with values in range, on a
  -- `MeasureStream` whose counter does not pass 64 bits, in either build: no panic and no error;
  -- the values are unchanged; and the counter grows by no less than the bits that writing the
  -- packet appends at any position of a writer, and by at most 7 more for each align, array of
  -- bytes and string, so by exactly those bits where there is none.
  pub serialize_message-counted :
      (ks : List Kind) (vs : Values ks) (s : MeasureStream) (position : ℕ)
      → AreDeclared ks vs
      → s.bits_written + message_bits ks vs position + message_slack ks < 2 ^ 64
      → (n : ℕ) × (serialize_message (measure_strings checked) ks vs s ≡ ok vs (counted s n))
        × (message_bits ks vs position ≤ n)
        × (n ≤ message_bits ks vs position + message_slack ks)
  serialize_message-counted ks vs s position declared room =
      let (least, most) = message_measure_lem ks vs position in
      (
        message_measure ks vs,
        serialize_message-counted_exactly ks vs s declared (omega arith),
        least,
        most,
      )
