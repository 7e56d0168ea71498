-- ===== src/ReadStream/Fixed.antt =====
-- About `serialize_fixed` of src/stream.rs on a `ReadStream`, over any bytes.
use serialize_rs.Base.{
  ℕ, ◌+◌, ◌-◌, ◌%◌, ◌^◌, ◌≤◌, ◌≡◌, ap, ◌∙◌, arith, Bool, true, false, ltb, leb, ◌==◌, inl, inr,
  Bool-cases, add_word, pow_pos, leb→le,
}
use mathlib.Core.Path.{subst}
use native.Mathlib.Nat.{mod-eq_of_lt, mod-lt}
use serialize_rs.Base.Int.{ℤ, leb_ℤ, eq_ℤ, ◌≤ℤ◌, IsSigned}
use serialize_rs.BitsRequired.{leading_zeros, leading_zeros-le}
use serialize_rs.Error.{value_out_of_range}
use serialize_rs.BitReader.Valid.{IsValid}
use serialize_rs.Stream.Fixed.{
  FixedPointStorage, from_unsigned, fit_format, raw_min, raw_range, serialize_degenerate_fixed,
  serialize_raw_fixed, serialize_fixed,
}
use serialize_rs.Stream.Format.{IsFixed}
use serialize_rs.Stream.Format.Codes.{from_unsigned-IsDecoded, raw_range-pos}
use serialize_rs.ReadStream.{ReadStream, read_stream}
use serialize_rs.ReadStream.Obligations.{Obeys, Obeys-attempt}
use serialize_rs.ReadStream.Basic.{refusing}
use serialize_rs.ReadStream.Raw.{Below, accepting}
use serialize_rs.ReadStream.Ranged.{gate-Obeys}
use serialize_rs.ReadStream.Wide.{serialize_offset128-Obeys}

module _ (checked : Bool) (t : FixedPointStorage) (i f : ℕ) (min max : ℤ) (dest : ℤ)
    (s : ReadStream) (lo : IsSigned 64 min) (hi : IsSigned 64 max) (most : t.bits ≤ 128)
    (valid : IsValid s.reader) where
  Within : ℤ → ReadStream → Type 0
  Within v _ = IsFixed t f min max v

  module _ (some_bits : 1 ≤ i) (whole : i + f ≡ t.bits) (ordered : min ≤ℤ max)
      (fit : fit_format t i min max ≡ true) where
    -- An offset in the range.
    decoded :
        (n : ℕ)
        → n ≤ raw_range f min max
        → IsFixed t f min max (from_unsigned t (add_word 128 (raw_min f min) n))
    decoded n inside =
        (from_unsigned-IsDecoded t.bits i f some_bits whole most t.signed min max lo hi fit ordered
          n inside).0

    degenerate-Obeys :
        Obeys Within dest s
          (serialize_degenerate_fixed (read_stream checked) t dest (raw_min f min) s)
    unfolding serialize_degenerate_fixed Within
    degenerate-Obeys =
        Obeys-attempt (λ _ _. Unit {0}) Within dest tt s _ _ (gate-Obeys checked s valid)
          λ _ s1 _ valid1 fresh.
            accepting Within dest _ s1 valid1 fresh (
              subst (λ n. IsFixed t f min max (from_unsigned t n)) nothing
                (decoded 0 (omega arith)))
      where
        nothing : add_word 128 (raw_min f min) 0 ≡ raw_min f min
        nothing = ap (λ (k : ℕ). k % 2 ^ 128) (omega arith) ∙ mod-eq_of_lt (mod-lt _ (pow_pos 128))

    raw-Obeys :
        eq_ℤ min max ≡ false
        → Obeys Within dest s (
            serialize_raw_fixed
              (read_stream checked)
              t
              dest
              (raw_min f min)
              (raw_range f min max)
              s)
    unfolding serialize_raw_fixed Within
    raw-Obeys range =
        let width : (1 ≤ 128 - leading_zeros 128 (raw_range f min max))
            × (128 - leading_zeros 128 (raw_range f min max) ≤ 128) =
          leading_zeros-le 128 (raw_range f min max)
            (raw_range-pos t.bits i f some_bits whole most t.signed min max lo hi fit ordered range)
            (mod-lt _ (pow_pos 128)) in
        Obeys-attempt (Below (128 - leading_zeros 128 (raw_range f min max))) Within dest 0 s _ _
          (serialize_offset128-Obeys checked (128 - leading_zeros 128 (raw_range f min max)) s valid
            (width.0) (width.1))
          λ n s1 _ valid1 fresh. elim (Bool-cases (ltb (raw_range f min max) n)) [
            | inl above ↦ rw above (refusing Within dest value_out_of_range s1 valid1)
            | inr inside ↦
                rw inside
                  (accepting Within dest _ s1 valid1 fresh (decoded n (ground (arith, inside))))
          ]

  -- `serialize_fixed` on a `ReadStream` with a valid reader, for storage of at most 128 bits,
  -- signed or unsigned, any numbers of integer and fraction bits, whether or not they fit the
  -- storage, and any two bounds of `i64`, in either build: no panic; a value that is accepted
  -- fits the storage and lies between the bounds in raw units, from a stream that had not
  -- failed; a refusal, of the declaration, of the bits or of an offset past the range, leaves
  -- the destination as it was and latches the error returned; a stream that had failed refuses
  -- for its first reason and does not change; the reader stays valid over the same packet and
  -- never moves back.
  pub serialize_fixed-Obeys :
      Obeys
        (λ v _. IsFixed t f min max v)
        dest
        s
        (serialize_fixed (read_stream checked) t dest i f min max s)
  unfolding serialize_fixed Within
  serialize_fixed-Obeys = elim (Bool-cases (leb 1 i)) [
    | inr none_left ↦ rw none_left (refusing Within dest value_out_of_range s valid)
    | inl some_bits ↦ elim (Bool-cases (i + f == t.bits)) [
      | inr other ↦ rw (some_bits, other) (refusing Within dest value_out_of_range s valid)
      | inl whole ↦ elim (Bool-cases (leb_ℤ min max)) [
        | inr inverted ↦
            rw (some_bits, whole, inverted) (refusing Within dest value_out_of_range s valid)
        | inl ordered ↦ elim (Bool-cases (fit_format t i min max)) [
          | inr large ↦
              rw (some_bits, whole, ordered, large)
                (refusing Within dest value_out_of_range s valid)
          | inl fit ↦ elim (Bool-cases (eq_ℤ min max)) [
            | inl same ↦
                rw (some_bits, whole, ordered, fit, same)
                  (degenerate-Obeys (leb→le 1 i some_bits) (ground (arith, whole))
                    (leb→le _ _ ordered) fit)
            | inr range ↦
                rw (some_bits, whole, ordered, fit, range)
                  (raw-Obeys (leb→le 1 i some_bits) (ground (arith, whole)) (leb→le _ _ ordered) fit
                    range)
          ]
        ]
      ]
    ]
  ]
