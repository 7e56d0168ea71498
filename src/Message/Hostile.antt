-- ===== src/Message/Hostile.antt =====
-- A packet's fields read from any bytes at all.
use serialize_rs.Base.{
  ◌≤◌, ◌+◌, ◌%◌, ◌^◌, ◌<◌, ◌≡◌, ◌∙◌, Bool, true, false, none, List, [], ◌∷◌, length,
}
use serialize_rs.Base.Int.{pos, pos_part, neg_part, ◌≤ℤ◌, IsSigned}
use serialize_rs.Bytes.{IsBytes}
use serialize_rs.Text.{has_nul, is_utf8}
use serialize_rs.Stream.Wide.{float_bits_are_finite, double_bits_are_finite}
use serialize_rs.ReadStream.Wide.{serialize_u128-Obeys, serialize_int128-Obeys}
use serialize_rs.Stream.Format.{IsFixed}
use serialize_rs.ReadStream.Fixed.{serialize_fixed-Obeys}
use serialize_rs.ReadStream.Floats.{serialize_f32-Obeys, serialize_f64-Obeys}
use serialize_rs.ReadStream.Relative.{serialize_int_relative-Obeys}
use serialize_rs.ReadStream.Text.{serialize_string-Obeys}
use serialize_rs.Message.Code.{IsShaped, AreShaped}
use serialize_rs.BitReader.Valid.{IsValid}
use serialize_rs.ReadStream.{ReadStream}
use serialize_rs.ReadStream.Strings.{read_strings}
use serialize_rs.ReadStream.Obligations.{Obeys, Obeys-weaken}
use serialize_rs.ReadStream.Guards.{Guards, Guards-into, Obeys-Guards, passing}
use serialize_rs.ReadStream.Basic.{
  serialize_bits-Obeys, serialize_align-Obeys, serialize_bytes-Obeys,
}
use serialize_rs.ReadStream.Raw.{serialize_bits64-Obeys, serialize_bool-Obeys}
use serialize_rs.ReadStream.Ranged.{serialize_int-Obeys, serialize_int64-Obeys}
use serialize_rs.Message.{
  Kind, bits_field, bits64_field, bool_field, int_field, int64_field, int128_field, fixed_field,
  u128_field, f32_field, f64_field, relative_field, align_field, bytes_field, string_field, Value,
  Values, serialize_field, serialize_message,
}

-- A declaration's arguments have their types, and may be wrong all the same.
abbrev pub IsTyped : Kind → Type 0
IsTyped (bits_field bits) = bits < 2 ^ 32
IsTyped (bits64_field bits) = Unit {0}
IsTyped bool_field = Unit {0}
IsTyped (int_field min max) = IsSigned 32 min × IsSigned 32 max
IsTyped (int64_field min max) = IsSigned 64 min × IsSigned 64 max
IsTyped (int128_field min max) = IsSigned 128 min × IsSigned 128 max
IsTyped (fixed_field t i f min max) = (t.bits ≤ 128) × IsSigned 64 min × IsSigned 64 max
IsTyped (relative_field previous) = IsSigned 32 previous
IsTyped _ = Unit {0}

abbrev pub AreTyped : List Kind → Type 0
AreTyped [] = Unit {0}
AreTyped (k ∷ ks) = IsTyped k × AreTyped ks

-- What a field promises of a value.
abbrev pub InRange : (k : Kind) → Value k → Type 0
InRange (bits_field bits) n = n < 2 ^ bits
InRange (bits64_field bits) n = n < 2 ^ bits
InRange bool_field v = Unit {0}
InRange (int_field min max) v = (min ≤ℤ v) × (v ≤ℤ max)
InRange (int64_field min max) v = (min ≤ℤ v) × (v ≤ℤ max)
InRange (int128_field min max) v = (min ≤ℤ v) × (v ≤ℤ max)
InRange (fixed_field t i f min max) v = IsFixed t f min max v
InRange u128_field n = n < 2 ^ 128
InRange f32_field n = (n < 2 ^ 32) × (float_bits_are_finite n ≡ true)
InRange f64_field n = (n < 2 ^ 64) × (double_bits_are_finite n ≡ true)
InRange (relative_field previous) v =
    (pos 0 ≤ℤ v)
    × (v ≤ℤ pos 2147483647)
    × (pos_part previous + neg_part v < pos_part v + neg_part previous)
InRange align_field v = Unit {0}
InRange (bytes_field count) v = (length v ≡ count) × IsBytes v
InRange (string_field buffer_size) v =
    IsBytes v × (has_nul v ≡ false) × (is_utf8 v ≡ true) × (length v < buffer_size)

abbrev pub AreInRange : (ks : List Kind) → Values ks → Type 0
AreInRange [] vs = Unit {0}
AreInRange (k ∷ ks) (v, vs) = InRange k v × AreInRange ks vs

module _ (checked : Bool) where
  pub serialize_field-Obeys :
      (k : Kind) (dest : Value k) (s : ReadStream)
      → IsTyped k
      → IsShaped k dest
      → IsValid s.reader
      → Obeys (λ v _. InRange k v) dest s (serialize_field (read_strings checked) k dest s)
  unfolding serialize_field
  serialize_field-Obeys (bits_field bits) dest s word _ v =
      serialize_bits-Obeys checked dest bits s v word
  serialize_field-Obeys (bits64_field bits) dest s _ _ v =
      serialize_bits64-Obeys checked dest bits s v
  serialize_field-Obeys bool_field dest s _ _ v = serialize_bool-Obeys checked dest s v
  serialize_field-Obeys (int_field min max) dest s (lo, hi) _ v =
      serialize_int-Obeys checked dest min max s lo hi v
  serialize_field-Obeys (int64_field min max) dest s (lo, hi) _ v =
      serialize_int64-Obeys checked dest min max s lo hi v
  serialize_field-Obeys (int128_field min max) dest s (lo, hi) _ v =
      serialize_int128-Obeys checked dest min max s lo hi v
  serialize_field-Obeys (fixed_field t i f min max) dest s (most, lo, hi) _ v =
      serialize_fixed-Obeys checked t i f min max dest s lo hi most v
  serialize_field-Obeys u128_field dest s _ _ v = serialize_u128-Obeys checked dest s v
  serialize_field-Obeys f32_field dest s _ _ v = serialize_f32-Obeys checked dest s v
  serialize_field-Obeys f64_field dest s _ _ v = serialize_f64-Obeys checked dest s v
  serialize_field-Obeys (relative_field previous) dest s _ _ v =
      serialize_int_relative-Obeys checked previous dest s v
  serialize_field-Obeys align_field dest s _ _ v =
      Obeys-weaken (λ _ s'. s'.reader.bits_read % 8 ≡ 0) (λ _ _. Unit {0}) tt s _ (λ _ _ _. tt)
        (serialize_align-Obeys checked s v)
  serialize_field-Obeys (bytes_field count) dest s _ shaped v =
      Obeys-weaken (λ found _. (length found ≡ length dest) × IsBytes found)
        (λ found _. (length found ≡ count) × IsBytes found) dest s _
        (λ _ _ (same, are_bytes). (same ∙ shaped, are_bytes))
        (serialize_bytes-Obeys checked dest s v)
  serialize_field-Obeys (string_field buffer_size) dest s _ _ v =
      serialize_string-Obeys checked dest buffer_size s v

  -- Any declarations, over any bytes.
  pub serialize_message-Guards :
      (ks : List Kind) (dest : Values ks) (s : ReadStream)
      → AreTyped ks
      → AreShaped ks dest
      → IsValid s.reader
      → s.failed ≡ none
      → Guards (AreInRange ks) s (serialize_message (read_strings checked) ks dest s)
  unfolding serialize_message
  serialize_message-Guards [] dest s _ _ valid fresh = passing (λ _. Unit {0}) tt s tt valid fresh
  serialize_message-Guards (k ∷ ks) (v, vs) s (typed, are_typed) (shaped, are_shaped) valid fresh =
      Guards-into (InRange k) (AreInRange (k ∷ ks)) (λ v'. (v', vs)) s _ _
        (Obeys-Guards (InRange k) v s _ (serialize_field-Obeys k v s typed shaped valid))
        λ v' s1 in_range valid1 fresh1.
          Guards-into (AreInRange ks) (AreInRange (k ∷ ks)) (λ vs'. (v', vs')) s1 _ _
            (serialize_message-Guards ks vs s1 are_typed are_shaped valid1 fresh1)
            λ vs' s2 in_ranges valid2 fresh2.
              passing (AreInRange (k ∷ ks)) (v', vs') s2 (in_range, in_ranges) valid2 fresh2
