-- ===== src/ReadStream/FixedDecode.antt =====
-- About `serialize_fixed` of src/stream.rs on a `ReadStream` that stands before a value's code.
use serialize_rs.Base.{
  ℕ, ◌+◌, ◌≡◌, ap, sym, ◌∙◌, Bool, true, false, leb, ltb, ◌==◌, inl, inr, Bool-cases, le→leb,
  le→ltb, ==_iff,
}
use serialize_rs.Base.Int.{ℤ, leb_ℤ, eq_ℤ}
use serialize_rs.Outcome.{ok}
use serialize_rs.Stream.{refuse_if_failed}
use serialize_rs.Stream.Fixed.{
  FixedPointStorage, raw_min, raw_range, serialize_degenerate_fixed, serialize_raw_fixed,
  serialize_fixed,
}
use serialize_rs.Stream.Format.{IsFixed}
use serialize_rs.Stream.FixedCode.{
  IsFormat, fixed_bits, fixed_code, fixed_bits-none, fixed_bits-fewest, fixed_code-le,
  fixed_code-lt, only_fixed, value_lem,
}
use serialize_rs.ReadStream.{ReadStream, read_stream}
use serialize_rs.ReadStream.Basic.{gate_fresh}
use serialize_rs.ReadStream.Sees.{Sees, past}
use serialize_rs.ReadStream.Decode.{past_none}
use serialize_rs.ReadStream.GroupsDecode.{serialize_offset128-Sees}

module _ (checked : Bool) (s : ReadStream) (t : FixedPointStorage) (i f : ℕ) (dest min v max : ℤ)
    (format : IsFormat t i f min max) (fixed : IsFixed t f min max v)
    (seen : Sees s (fixed_code f min v) (fixed_bits f min max)) where
  degenerate-Sees :
      eq_ℤ min max ≡ true
      → serialize_degenerate_fixed (read_stream checked) t dest (raw_min f min) s
        ≡ ok v (past s (fixed_bits f min max))
  unfolding serialize_degenerate_fixed refuse_if_failed
  degenerate-Sees same =
      let (_, no_bits) = fixed_bits-none t i f min max format same in
      rw (gate_fresh s seen.fresh) (
        ap (λ (z : ℤ). ok z s) ((only_fixed t i f min max format same v fixed).1)
        ∙ ap (λ (z : ReadStream). ok v z) (sym (past_none s _ no_bits)))

  pub serialize_fixed-Sees :
      serialize_fixed (read_stream checked) t dest i f min max s
      ≡ ok v (past s (fixed_bits f min max))
  unfolding serialize_fixed serialize_raw_fixed
  serialize_fixed-Sees =
      let (most, some_bits, whole, lo, hi, ordered, fit) = format in
      let some_bits' : leb 1 i ≡ true = le→leb 1 i some_bits in
      let whole' : (i + f == t.bits) ≡ true = (==_iff (i + f) t.bits).1 whole in
      let ordered' : leb_ℤ min max ≡ true = le→leb _ _ ordered in
      elim (Bool-cases (eq_ℤ min max)) [
        | inl same ↦ rw (some_bits', whole', ordered', fit, same) (degenerate-Sees same)
        | inr apart ↦
            let (few, fits, _) = fixed_bits-fewest t i f min max format apart in
            let inside : ltb (raw_range f min max) (fixed_code f min v) ≡ false =
              le→ltb _ _ (fixed_code-le t i f min max format v fixed) in
            rw
              (
                some_bits',
                whole',
                ordered',
                fit,
                apart,
                serialize_offset128-Sees checked s (fixed_code f min v) (fixed_bits f min max) few
                    fits (fixed_code-lt t i f min max format v fixed) seen,
                inside,
              )
              (ap (λ (z : ℤ). ok z (past s (fixed_bits f min max)))
                (value_lem t i f min max format v fixed))
      ]
