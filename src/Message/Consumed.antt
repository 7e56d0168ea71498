-- ===== src/Message/Consumed.antt =====
-- What an accepted packet's fields have consumed: the code of the values.
use serialize_rs.Base.{ℕ, ◌+◌, ◌*◌, ◌^◌, ◌≡◌, ap, ◌∙◌, Bool, none, List, [], ◌∷◌, length}
use serialize_rs.BitReader.Valid.{IsValid}
use serialize_rs.ReadStream.{ReadStream}
use serialize_rs.ReadStream.Strings.{read_strings}
use serialize_rs.ReadStream.Spells.{
  Spells, Spells-none, Spells-as, Spells-then, Spells-valid, Spells-fresh, Spells-position, Yields,
  Yields-weaken, Yields-into,
}
use serialize_rs.ReadStream.Spells.Basic.{Raw, serialize_bits-Yields, serialize_align-Yields}
use serialize_rs.ReadStream.Spells.Raw.{serialize_bits64-Yields, serialize_bool-Yields}
use serialize_rs.ReadStream.Spells.Ranged.{serialize_int-Yields, serialize_int64-Yields}
use serialize_rs.ReadStream.Spells.Wide.{
  serialize_u128-Yields, Float32, serialize_f32-Yields, Float64, serialize_f64-Yields,
}
use serialize_rs.ReadStream.Spells.Groups.{serialize_int128-Yields}
use serialize_rs.ReadStream.Spells.Fixed.{serialize_fixed-Yields}
use serialize_rs.ReadStream.Spells.Relative.{Relative, serialize_int_relative-Yields}
use serialize_rs.ReadStream.Spells.Blocks.{
  Block, serialize_bytes-Yields, Text, serialize_string-Yields,
}
use serialize_rs.Stream.StringCode.{pad_bits}
use serialize_rs.Message.{
  Kind, bits_field, bits64_field, bool_field, int_field, int64_field, int128_field, fixed_field,
  u128_field, f32_field, f64_field, relative_field, align_field, bytes_field, string_field, Value,
  Values, serialize_field, serialize_message,
}
use serialize_rs.Message.Code.{
  Declared, AreDeclared, IsShaped, AreShaped, field_bits, field_code, message_bits, message_code,
}
use serialize_rs.Message.Hostile.{IsTyped, AreTyped}

-- The value is one that a writer may send, and what was read is its code.
abbrev pub Field : (k : Kind) → ReadStream → Value k → ReadStream → Type 0
Field k s v t =
    Declared k v
    × Spells s (field_code k v s.reader.bits_read) (field_bits k v s.reader.bits_read) t

abbrev pub Fields : (ks : List Kind) → ReadStream → Values ks → ReadStream → Type 0
Fields ks s vs t =
    AreDeclared ks vs
    × Spells s (message_code ks vs s.reader.bits_read) (message_bits ks vs s.reader.bits_read) t

module _ (checked : Bool) where
  serialize_field-Yields :
      (k : Kind) (dest : Value k) (s : ReadStream)
      → IsTyped k
      → IsShaped k dest
      → IsValid s.reader
      → Yields (Field k s) (serialize_field (read_strings checked) k dest s)
  unfolding serialize_field
  serialize_field-Yields (bits_field bits) dest s word _ valid =
      Yields-weaken (Raw 32 bits s) (Field (bits_field bits) s) _
        (λ n t (lo, hi, small, read). ((lo, hi, small), read))
        (serialize_bits-Yields checked s valid dest bits word)
  serialize_field-Yields (bits64_field bits) dest s _ _ valid =
      Yields-weaken (Raw 64 bits s) (Field (bits64_field bits) s) _
        (λ n t (lo, hi, small, read). ((lo, hi, small), read))
        (serialize_bits64-Yields checked s valid dest bits)
  serialize_field-Yields bool_field dest s _ _ valid =
      Yields-weaken (λ v t. Spells s (field_code bool_field v 0) 1 t) (Field bool_field s) _
        (λ v t read. (tt, read)) (serialize_bool-Yields checked s valid dest)
  serialize_field-Yields (int_field min max) dest s (lo, hi) _ valid =
      serialize_int-Yields checked dest min max s valid lo hi
  serialize_field-Yields (int64_field min max) dest s (lo, hi) _ valid =
      serialize_int64-Yields checked dest min max s valid lo hi
  serialize_field-Yields (int128_field min max) dest s (lo, hi) _ valid =
      serialize_int128-Yields checked s valid dest min max lo hi
  serialize_field-Yields (fixed_field t i f min max) dest s (most, lo, hi) _ valid =
      serialize_fixed-Yields checked t i f min max dest s most lo hi valid
  serialize_field-Yields u128_field dest s _ _ valid = serialize_u128-Yields checked s valid dest
  serialize_field-Yields f32_field dest s _ _ valid =
      Yields-weaken (Float32 checked s valid) (Field f32_field s) _
        (λ n t (small, finite, read). ((small, finite), read))
        (serialize_f32-Yields checked s valid dest)
  serialize_field-Yields f64_field dest s _ _ valid =
      Yields-weaken (Float64 checked s valid) (Field f64_field s) _
        (λ n t (small, finite, read). ((small, finite), read))
        (serialize_f64-Yields checked s valid dest)
  serialize_field-Yields (relative_field previous) dest s fits _ valid =
      Yields-weaken (Relative previous s) (Field (relative_field previous) s) _
        (λ v t (a, b, c, d, read). ((a, b, c, d), read))
        (serialize_int_relative-Yields checked dest s valid previous fits)
  serialize_field-Yields align_field dest s _ _ valid =
      Yields-weaken (λ _ t. Spells s 0 (pad_bits s.reader.bits_read) t) (Field align_field s) _
        (λ v t read. (tt, read)) (serialize_align-Yields checked s valid)
  serialize_field-Yields (bytes_field count) dest s _ shaped valid =
      Yields-weaken (Block checked (length dest) s) (Field (bytes_field count) s) _
        (λ v t (are_bytes, sized, read). ((are_bytes, sized ∙ shaped), read))
        (serialize_bytes-Yields checked dest s valid)
  serialize_field-Yields (string_field buffer_size) dest s _ _ valid =
      Yields-weaken (Text checked buffer_size s) (Field (string_field buffer_size) s) _
        (λ v t (a, b, c, d, e, read). ((a, b, c, d, e), read))
        (serialize_string-Yields checked dest buffer_size s valid)

  -- One field in front of the others.
  Fields-cons :
      (k : Kind) (ks : List Kind) (v : Value k) (vs : Values ks) {s s1 t : ReadStream}
      → Field k s v s1
      → Fields ks s1 vs t
      → Fields (k ∷ ks) s (v, vs) t
  Fields-cons k ks v vs {s} (declared, first) (are_declared, rest) =
      let bits = field_bits k v s.reader.bits_read in
      (
        (declared, are_declared),
        Spells-as (Spells-then first rest)
            (ap (λ (q : ℕ). field_code k v s.reader.bits_read + 2 ^ bits * message_code ks vs q)
              (Spells-position first))
            (ap (λ (q : ℕ). bits + message_bits ks vs q) (Spells-position first)),
      )

  pub serialize_message-Yields :
      (ks : List Kind) (dest : Values ks) (s : ReadStream)
      → AreTyped ks
      → AreShaped ks dest
      → IsValid s.reader
      → s.failed ≡ none
      → Yields (Fields ks s) (serialize_message (read_strings checked) ks dest s)
  unfolding serialize_message
  serialize_message-Yields [] dest s _ _ valid fresh = (tt, Spells-none s valid fresh)
  serialize_message-Yields (k ∷ ks) (v, vs) s (typed, are_typed) (shaped, are_shaped) valid fresh =
      Yields-into (Field k s) (Fields (k ∷ ks) s) (λ v'. (v', vs)) _ _
        (serialize_field-Yields k v s typed shaped valid)
        λ v' s1 first.
          Yields-into (Fields ks s1) (Fields (k ∷ ks) s) (λ vs'. (v', vs')) _ _
            (serialize_message-Yields ks vs s1 are_typed are_shaped (Spells-valid first.1)
              (Spells-fresh first.1))
            λ vs' t rest. Fields-cons k ks v' vs' first rest
