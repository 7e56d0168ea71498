-- ===== src/ReadStream/Spells/Fixed.antt =====
-- About `serialize_fixed` of src/stream.rs on a `ReadStream`: what an accepted read has consumed.
use serialize_rs.Base.{
  ℕ, ◌+◌, ◌^◌, ◌%◌, ◌≤◌, ◌≡◌, refl, ap, sym, ◌∙◌, arith, Bool, true, false, leb, ltb, ◌==◌, inl,
  inr, Bool-cases, Option-cases, leb→le, ==_iff, add_word, pow_pos,
}
use native.Mathlib.Nat.{mod-eq_of_lt, mod-lt}
use mathlib.Core.Path.{subst}
use serialize_rs.Base.Int.{ℤ, leb_ℤ, eq_ℤ, IsSigned}
use serialize_rs.Error.{value_out_of_range}
use serialize_rs.BitReader.Valid.{IsValid}
use serialize_rs.Stream.{refuse_if_failed}
use serialize_rs.Stream.Fixed.{
  FixedPointStorage, from_unsigned, fit_format, raw_min, raw_range, serialize_degenerate_fixed,
  serialize_raw_fixed, serialize_fixed,
}
use serialize_rs.Stream.Format.{IsFixed}
use serialize_rs.Stream.FixedCode.{
  IsFormat, fixed_bits, fixed_code, fixed_bits-none, fixed_bits-fewest, offset_lem,
}
use serialize_rs.ReadStream.{ReadStream, read_stream}
use serialize_rs.ReadStream.Basic.{gate_fresh, gate_failed}
use serialize_rs.ReadStream.Spells.{
  Spells, Spells-none, Spells-as, Yields, Yields-attempt, Yields-refused,
}
use serialize_rs.ReadStream.Spells.Groups.{serialize_offset128-Yields}

-- A value of the format between the bounds, and its code.
abbrev pub FixedCoded : FixedPointStorage → ℕ → ℕ → ℤ → ℤ → ReadStream → ℤ → ReadStream → Type 0
FixedCoded t i f min max s v u =
    (IsFormat t i f min max × IsFixed t f min max v)
    × Spells s (fixed_code f min v) (fixed_bits f min max) u

module _ (checked : Bool) (t : FixedPointStorage) (i f : ℕ) (min max dest : ℤ)
    (s : ReadStream) where
  offset-FixedCoded :
      IsFormat t i f min max
      → (n : ℕ) (u : ReadStream) → n ≤ raw_range f min max
      → Spells s n (fixed_bits f min max) u
      → FixedCoded t i f min max s (from_unsigned t (add_word 128 (raw_min f min) n)) u
  offset-FixedCoded format n u inside read =
      let (fixed, code) = offset_lem t i f min max format n inside in
      ((format, fixed), Spells-as read (sym code) refl)

  degenerate-Yields :
      IsFormat t i f min max
      → IsValid s.reader
      → eq_ℤ min max ≡ true
      → Yields
          (FixedCoded t i f min max s)
          (serialize_degenerate_fixed (read_stream checked) t dest (raw_min f min) s)
  unfolding serialize_degenerate_fixed refuse_if_failed
  degenerate-Yields format valid same = elim (Option-cases s.failed) [
    | inr (first, failed) ↦ rw (gate_failed s first failed) tt
    | inl fresh ↦ rw (gate_fresh s fresh) (
        subst (λ n. FixedCoded t i f min max s (from_unsigned t n) s) nothing
          (offset-FixedCoded format 0 s (omega arith) (
            Spells-as (Spells-none s valid fresh) refl
              (sym ((fixed_bits-none t i f min max format same).1)))))
  ]
    where
      nothing : add_word 128 (raw_min f min) 0 ≡ raw_min f min
      nothing = ap (λ (k : ℕ). k % 2 ^ 128) (omega arith) ∙ mod-eq_of_lt (mod-lt _ (pow_pos 128))

  raw-Yields :
      IsFormat t i f min max
      → IsValid s.reader
      → eq_ℤ min max ≡ false
      → Yields
          (FixedCoded t i f min max s)
          (serialize_raw_fixed (read_stream checked) t dest (raw_min f min) (raw_range f min max) s)
  unfolding serialize_raw_fixed
  raw-Yields format valid apart =
      let (few, fits, _) = fixed_bits-fewest t i f min max format apart in
      Yields-attempt (λ n u. Spells s n (fixed_bits f min max) u) (FixedCoded t i f min max s) dest
        _ _ (serialize_offset128-Yields checked s valid (fixed_bits f min max) few fits)
        λ n u read. elim (Bool-cases (ltb (raw_range f min max) n)) [
          | inl above ↦
              rw above (Yields-refused (FixedCoded t i f min max s) dest value_out_of_range u)
          | inr inside ↦ rw inside (offset-FixedCoded format n u (ground (arith, inside)) read)
        ]

  pub serialize_fixed-Yields :
      t.bits ≤ 128
      → IsSigned 64 min
      → IsSigned 64 max
      → IsValid s.reader
      → Yields
          (FixedCoded t i f min max s)
          (serialize_fixed (read_stream checked) t dest i f min max s)
  unfolding serialize_fixed
  serialize_fixed-Yields most lo hi valid = elim (Bool-cases (leb 1 i)) [
    | inr none_left ↦
        rw none_left (Yields-refused (FixedCoded t i f min max s) dest value_out_of_range s)
    | inl some_bits ↦ elim (Bool-cases (i + f == t.bits)) [
      | inr other ↦
          rw (some_bits, other)
            (Yields-refused (FixedCoded t i f min max s) dest value_out_of_range s)
      | inl whole ↦ elim (Bool-cases (leb_ℤ min max)) [
        | inr inverted ↦
            rw (some_bits, whole, inverted)
              (Yields-refused (FixedCoded t i f min max s) dest value_out_of_range s)
        | inl ordered ↦ elim (Bool-cases (fit_format t i min max)) [
          | inr large ↦
              rw (some_bits, whole, ordered, large)
                (Yields-refused (FixedCoded t i f min max s) dest value_out_of_range s)
          | inl fit ↦
              let format : IsFormat t i f min max = (
                most,
                leb→le 1 i some_bits,
                (==_iff (i + f) t.bits).0 whole,
                lo,
                hi,
                leb→le _ _ ordered,
                fit,
              ) in
              elim (Bool-cases (eq_ℤ min max)) [
                | inl same ↦
                    rw (some_bits, whole, ordered, fit, same) (degenerate-Yields format valid same)
                | inr apart ↦
                    rw (some_bits, whole, ordered, fit, apart) (raw-Yields format valid apart)
              ]
        ]
      ]
    ]
  ]
