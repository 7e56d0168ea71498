-- ===== src/MeasureStream/Fixed.antt =====
-- About `serialize_fixed` of src/stream.rs on a `MeasureStream`.
use serialize_rs.Base.{
  ℕ, ◌+◌, ◌^◌, ◌<◌, ◌≡◌, refl, ap, arith, Bool, true, leb, ◌==◌, inl, inr, Bool-cases, le→leb,
  ==_iff,
}
use serialize_rs.Base.Int.{ℤ, leb_ℤ, eq_ℤ, to_word}
use serialize_rs.Outcome.{ok}
use serialize_rs.Stream.{refuse_if_failed}
use serialize_rs.Stream.Fixed.{
  FixedPointStorage, raw_min, raw_range, serialize_degenerate_fixed, serialize_raw_fixed,
  serialize_fixed,
}
use serialize_rs.Stream.Format.{IsFixed}
use serialize_rs.Stream.FixedCode.{
  IsFormat, fixed_bits, fixed_code, fixed_bits-none, fixed_bits-fewest, fixed_code-le,
  fixed_code-lt, only_fixed,
}
use serialize_rs.MeasureStream.{MeasureStream, measure_stream, gate}
use serialize_rs.MeasureStream.Shared.{counted}
use serialize_rs.MeasureStream.Groups.{serialize_offset128-counted}

module _ (checked : Bool) (s : MeasureStream) (t : FixedPointStorage) (i f : ℕ) (min v max : ℤ)
    (format : IsFormat t i f min max) (fixed : IsFixed t f min max v) where
  degenerate-counted :
      eq_ℤ min max ≡ true
      → serialize_degenerate_fixed (measure_stream checked) t v (raw_min f min) s
        ≡ ok v (counted s (fixed_bits f min max))
  unfolding serialize_degenerate_fixed refuse_if_failed gate
  degenerate-counted same =
      let (_, no_bits) = fixed_bits-none t i f min max format same in
      let here : (to_word 128 v == raw_min f min) ≡ true =
        (==_iff (to_word 128 v) (raw_min f min)).1
          ((only_fixed t i f min max format same v fixed).0) in
      rw here (ap (λ (k : ℕ). ok v (record { bits_written = k })) (omega (arith, no_bits)))

  pub serialize_fixed-counted :
      s.bits_written + fixed_bits f min max < 2 ^ 64
      → serialize_fixed (measure_stream checked) t v i f min max s
        ≡ ok v (counted s (fixed_bits f min max))
  unfolding serialize_fixed serialize_raw_fixed
  serialize_fixed-counted room =
      let (most, some_bits, whole, lo, hi, ordered, fit) = format in
      let some_bits' : leb 1 i ≡ true = le→leb 1 i some_bits in
      let whole' : (i + f == t.bits) ≡ true = (==_iff (i + f) t.bits).1 whole in
      let ordered' : leb_ℤ min max ≡ true = le→leb _ _ ordered in
      elim (Bool-cases (eq_ℤ min max)) [
        | inl same ↦ rw (some_bits', whole', ordered', fit, same) (degenerate-counted same)
        | inr apart ↦
            let (few, fits, _) = fixed_bits-fewest t i f min max format apart in
            let inside : leb (fixed_code f min v) (raw_range f min max) ≡ true =
              le→leb _ _ (fixed_code-le t i f min max format v fixed) in
            rw
              (
                some_bits',
                whole',
                ordered',
                fit,
                apart,
                inside,
                serialize_offset128-counted checked s (fixed_code f min v) (fixed_bits f min max)
                    few fits (fixed_code-lt t i f min max format v fixed) room,
              )
              refl
      ]
