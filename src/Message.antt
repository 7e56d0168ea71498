-- ===== src/Message.antt =====
-- A packet's `serialize` function, as src/lib.rs shows one: a single body over `Stream`, the
-- fields one after another under `?`. A packet is a list of kinds of fields and a value of each.
pub mod Code
pub mod Write
pub mod Read
pub mod Measure
pub mod Packet
pub mod RoundTrip
pub mod Hostile
pub mod Received
pub mod Sized
pub mod Consumed
pub mod Canonical
use serialize_rs.Base.{ℕ, Bool, List, [], ◌∷◌}
use serialize_rs.Base.Int.{ℤ}
use serialize_rs.Outcome.{Outcome, ok, attempt_into}
use serialize_rs.Stream.Strings.{StringStream}
use serialize_rs.Stream.Wide.{serialize_int128, serialize_u128, serialize_f32, serialize_f64}
use serialize_rs.Stream.Fixed.{FixedPointStorage, serialize_fixed}
use serialize_rs.Stream.Relative.{serialize_int_relative}
use serialize_rs.Stream.Raw.{serialize_bits64, serialize_bool}
use serialize_rs.Stream.Ranged.{serialize_int, serialize_int64}

-- The operation that a field goes through, with its declaration: widths, bounds, storage, the value that a
-- relative integer is relative to, the length of an array of bytes, the size of a string's buffer.
pub data Kind : Type 0 where
  bits_field : ℕ → Kind
  bits64_field : ℕ → Kind
  bool_field : Kind
  int_field : ℤ → ℤ → Kind
  int64_field : ℤ → ℤ → Kind
  int128_field : ℤ → ℤ → Kind
  fixed_field : FixedPointStorage → ℕ → ℕ → ℤ → ℤ → Kind
  u128_field : Kind
  f32_field : Kind
  f64_field : Kind
  relative_field : ℤ → Kind
  align_field : Kind
  bytes_field : ℕ → Kind
  string_field : ℕ → Kind

abbrev pub Value : Kind → Type 0
Value (bits_field bits) = ℕ
Value (bits64_field bits) = ℕ
Value bool_field = Bool
Value (int_field min max) = ℤ
Value (int64_field min max) = ℤ
Value (int128_field min max) = ℤ
Value (fixed_field t integer_bits fraction_bits min_units max_units) = ℤ
Value u128_field = ℕ
Value f32_field = ℕ
Value f64_field = ℕ
Value (relative_field previous) = ℤ
Value align_field = Unit {0}
Value (bytes_field count) = List ℕ
Value (string_field buffer_size) = List ℕ

abbrev pub Values : List Kind → Type 0
Values [] = Unit {0}
Values (k ∷ ks) = Value k × Values ks

module _ {S : Type 0} (strings : StringStream S) where
  open strings use {stream, serialize_string}

  unfoldable pub serialize_field : (k : Kind) → Value k → S → Outcome (Value k) S
  unfolding serialize_bits64 serialize_bool serialize_int serialize_int64 serialize_int128
      serialize_fixed serialize_u128 serialize_f32 serialize_f64 serialize_int_relative
  serialize_field (bits_field bits) value s = stream.serialize_bits value bits s
  serialize_field (bits64_field bits) value s = serialize_bits64 stream value bits s
  serialize_field bool_field value s = serialize_bool stream value s
  serialize_field (int_field min max) value s = serialize_int stream value min max s
  serialize_field (int64_field min max) value s = serialize_int64 stream value min max s
  serialize_field (int128_field min max) value s = serialize_int128 stream value min max s
  serialize_field (fixed_field t integer_bits fraction_bits min_units max_units) value s =
      serialize_fixed stream t value integer_bits fraction_bits min_units max_units s
  serialize_field u128_field value s = serialize_u128 stream value s
  serialize_field f32_field value s = serialize_f32 stream value s
  serialize_field f64_field value s = serialize_f64 stream value s
  serialize_field (relative_field previous) value s = serialize_int_relative stream previous value s
  serialize_field align_field value s = stream.serialize_align s
  serialize_field (bytes_field count) value s = stream.serialize_bytes value s
  serialize_field (string_field buffer_size) value s = serialize_string value buffer_size s

  unfoldable pub serialize_message : (ks : List Kind) → Values ks → S → Outcome (Values ks) S
  unfolding serialize_field
  serialize_message [] value s = ok value s
  serialize_message (k ∷ ks) (v, vs) s =
      attempt_into (λ v'. (v', vs)) (serialize_field k v s)
        λ v' s1.
          attempt_into (λ vs'. (v', vs')) (serialize_message ks vs s1) λ vs' s2. ok (v', vs') s2
