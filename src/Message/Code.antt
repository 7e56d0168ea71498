-- ===== src/Message/Code.antt =====
-- What a packet is on the wire: the number of its bits, and the number they spell. Both depend on
-- the position, since an align pads up to the next byte.
use serialize_rs.Base.{
  ℕ, ◌+◌, ◌*◌, ◌^◌, ◌≤◌, ◌<◌, ◌≡◌, arith, true, false, List, [], ◌∷◌, length, if◌then◌else◌,
  pow_pos,
}
use serialize_rs.Base.Int.{pos, negsuc, pos_part, ◌≤ℤ◌, span}
use serialize_rs.Bytes.{IsBytes, le_value}
use serialize_rs.Stream.Code.{ranged_bits, Ranged, Ranged-lt}
use serialize_rs.Stream.Wide.{float_bits_are_finite, double_bits_are_finite}
use serialize_rs.Stream.Format.{IsFixed}
use serialize_rs.Stream.FixedCode.{IsFormat, fixed_bits, fixed_code, fixed_code-lt}
use serialize_rs.Stream.RelativeCode.{relative_bits, relative_code, relative_code-lt}
use serialize_rs.Stream.StringCode.{pad_bits, string_bits, string_code, padded-lt, string_code-lt}
use serialize_rs.Text.{has_nul, is_utf8}
use serialize_rs.Message.{
  Kind, bits_field, bits64_field, bool_field, int_field, int64_field, int128_field, fixed_field,
  u128_field, f32_field, f64_field, relative_field, align_field, bytes_field, string_field, Value,
  Values,
}

abbrev pub Declared : (k : Kind) → Value k → Type 0
Declared (bits_field bits) n = (1 ≤ bits) × (bits ≤ 32) × (n < 2 ^ bits)
Declared (bits64_field bits) n = (1 ≤ bits) × (bits ≤ 64) × (n < 2 ^ bits)
Declared bool_field v = Unit {0}
Declared (int_field min max) v = Ranged 32 min v max
Declared (int64_field min max) v = Ranged 64 min v max
Declared (int128_field min max) v = Ranged 128 min v max
Declared (fixed_field t i f min max) v = IsFormat t i f min max × IsFixed t f min max v
Declared u128_field n = n < 2 ^ 128
Declared f32_field n = (n < 2 ^ 32) × (float_bits_are_finite n ≡ true)
Declared f64_field n = (n < 2 ^ 64) × (double_bits_are_finite n ≡ true)
Declared (relative_field previous) v =
    (pos 0 ≤ℤ previous) × (pos 0 ≤ℤ v) × (pos_part previous < pos_part v) × (v ≤ℤ pos 2147483647)
Declared align_field v = Unit {0}
Declared (bytes_field count) v = IsBytes v × (length v ≡ count)
Declared (string_field buffer_size) v =
    IsBytes v
    × (has_nul v ≡ false)
    × (is_utf8 v ≡ true)
    × (length v < buffer_size)
    × (buffer_size < 2 ^ 31)

abbrev pub AreDeclared : (ks : List Kind) → Values ks → Type 0
AreDeclared [] value = Unit {0}
AreDeclared (k ∷ ks) (v, vs) = Declared k v × AreDeclared ks vs

-- An array of bytes has the length of its type.
abbrev pub IsShaped : (k : Kind) → Value k → Type 0
IsShaped (bytes_field count) v = length v ≡ count
IsShaped _ v = Unit {0}

abbrev pub AreShaped : (ks : List Kind) → Values ks → Type 0
AreShaped [] value = Unit {0}
AreShaped (k ∷ ks) (v, vs) = IsShaped k v × AreShaped ks vs

-- Of a field at `position`.
abbrev pub field_bits : (k : Kind) → Value k → ℕ → ℕ
field_bits (bits_field bits) n position = bits
field_bits (bits64_field bits) n position = bits
field_bits bool_field v position = 1
field_bits (int_field min max) v position = ranged_bits 32 min max
field_bits (int64_field min max) v position = ranged_bits 64 min max
field_bits (int128_field min max) v position = ranged_bits 128 min max
field_bits (fixed_field t i f min max) v position = fixed_bits f min max
field_bits u128_field n position = 128
field_bits f32_field n position = 32
field_bits f64_field n position = 64
field_bits (relative_field previous) v position = relative_bits (pos_part previous) (pos_part v)
field_bits align_field v position = pad_bits position
field_bits (bytes_field count) v position = pad_bits position + 8 * length v
field_bits (string_field buffer_size) v position = string_bits buffer_size v position

abbrev pub field_code : (k : Kind) → Value k → ℕ → ℕ
field_code (bits_field bits) n position = n
field_code (bits64_field bits) n position = n
field_code bool_field v position = if v then 1 else 0
field_code (int_field min max) v position = span 32 min v
field_code (int64_field min max) v position = span 64 min v
field_code (int128_field min max) v position = span 128 min v
field_code (fixed_field t i f min max) v position = fixed_code f min v
field_code u128_field n position = n
field_code f32_field n position = n
field_code f64_field n position = n
field_code (relative_field previous) v position = relative_code (pos_part previous) (pos_part v)
field_code align_field v position = 0
field_code (bytes_field count) v position = 2 ^ pad_bits position * le_value v
field_code (string_field buffer_size) v position = string_code buffer_size v position

abbrev pub message_bits : (ks : List Kind) → Values ks → ℕ → ℕ
message_bits [] value position = 0
message_bits (k ∷ ks) (v, vs) position =
    field_bits k v position + message_bits ks vs (position + field_bits k v position)

-- The first field is the lowest.
abbrev pub message_code : (ks : List Kind) → Values ks → ℕ → ℕ
message_code [] value position = 0
message_code (k ∷ ks) (v, vs) position =
    field_code k v position
    + 2 ^ field_bits k v position * message_code ks vs (position + field_bits k v position)

-- A field's code fits in its bits.
pub field_code-lt :
    (k : Kind) (v : Value k) (position : ℕ)
    → Declared k v
    → field_code k v position < 2 ^ field_bits k v position
field_code-lt (bits_field bits) n position (_, _, h) = h
field_code-lt (bits64_field bits) n position (_, _, h) = h
field_code-lt bool_field v position h = ground arith
field_code-lt (int_field min max) v position h = Ranged-lt 32 (omega arith) min v max h
field_code-lt (int64_field min max) v position h = Ranged-lt 64 (omega arith) min v max h
field_code-lt (int128_field min max) v position h = Ranged-lt 128 (omega arith) min v max h
field_code-lt (fixed_field t i f min max) v position (format, fixed) =
    fixed_code-lt t i f min max format v fixed
field_code-lt u128_field n position h = h
field_code-lt f32_field n position (h, _) = h
field_code-lt f64_field n position (h, _) = h
field_code-lt (relative_field (pos p)) (pos m) position (_, _, above, small) =
    relative_code-lt p m above (omega arith)
field_code-lt (relative_field (negsuc p)) v position (lo, _, _, _) = absurd (omega arith)
field_code-lt (relative_field (pos p)) (negsuc m) position (_, lo, _, _) = absurd (omega arith)
field_code-lt align_field v position h = pow_pos (pad_bits position)
field_code-lt (bytes_field count) v position (are_bytes, _) =
    padded-lt (pad_bits position) v are_bytes
field_code-lt (string_field buffer_size) v position (are_bytes, _, _, fits, small) =
    string_code-lt buffer_size v position are_bytes fits small
