-- ===== src/WriteStream/Fixed.antt =====
-- About `serialize_fixed` of src/stream.rs on a `WriteStream`.
use serialize_rs.Base.{
  ℕ, ◌+◌, ◌≤◌, ◌≡◌, refl, sym, arith, Bool, true, leb, ◌==◌, inl, inr, Bool-cases, le→leb, ==_iff,
}
use serialize_rs.Base.Int.{ℤ, leb_ℤ, eq_ℤ, to_word}
use serialize_rs.Outcome.{ok}
use serialize_rs.BitWriter.Valid.{IsValid}
use serialize_rs.Stream.{refuse_if_failed}
use serialize_rs.Stream.Fixed.{
  FixedPointStorage, raw_min, raw_range, serialize_degenerate_fixed, serialize_raw_fixed,
  serialize_fixed,
}
use serialize_rs.Stream.Format.{IsFixed}
use serialize_rs.Stream.FixedCode.{
  IsFormat, fixed_bits, fixed_code, fixed_bits-none, fixed_bits-fewest, fixed_code-le,
  fixed_code-lt, only_fixed,
}
use serialize_rs.WriteStream.{WriteStream, write_stream, gate}
use serialize_rs.WriteStream.Writes.{Writes, Writes-none, Writes-as, Writes-last}
use serialize_rs.WriteStream.Groups.{serialize_offset128-Writes}

module _ (checked : Bool) {s : WriteStream} (valid : IsValid s.writer) (t : FixedPointStorage)
    (i f : ℕ) (min v max : ℤ) (format : IsFormat t i f min max)
    (fixed : IsFixed t f min max v) where
  degenerate-Writes :
      eq_ℤ min max ≡ true
      → Writes s v
          (fixed_code f min v)
          (fixed_bits f min max)
          (serialize_degenerate_fixed (write_stream checked) t v (raw_min f min) s)
  unfolding serialize_degenerate_fixed refuse_if_failed gate
  degenerate-Writes same =
      let (no_range, no_bits) = fixed_bits-none t i f min max format same in
      let here : (to_word 128 v == raw_min f min) ≡ true =
        (==_iff (to_word 128 v) (raw_min f min)).1
          ((only_fixed t i f min max format same v fixed).0) in
      Writes-as (Writes-none v valid)
        (omega (arith, fixed_code-le t i f min max format v fixed, no_range)) (sym no_bits)
        (rw here refl)

  pub serialize_fixed-Writes :
      s.writer.bits_written + fixed_bits f min max ≤ s.writer.num_bits
      → Writes s v
          (fixed_code f min v)
          (fixed_bits f min max)
          (serialize_fixed (write_stream checked) t v i f min max s)
  unfolding serialize_fixed serialize_raw_fixed
  serialize_fixed-Writes room =
      let (most, some_bits, whole, lo, hi, ordered, fit) = format in
      let some_bits' : leb 1 i ≡ true = le→leb 1 i some_bits in
      let whole' : (i + f == t.bits) ≡ true = (==_iff (i + f) t.bits).1 whole in
      let ordered' : leb_ℤ min max ≡ true = le→leb _ _ ordered in
      elim (Bool-cases (eq_ℤ min max)) [
        | inl same ↦ rw (some_bits', whole', ordered', fit, same) (degenerate-Writes same)
        | inr apart ↦
            let (few, fits, _) = fixed_bits-fewest t i f min max format apart in
            let field =
              serialize_offset128-Writes checked valid (fixed_code f min v) (fixed_bits f min max)
                few fits (fixed_code-lt t i f min max format v fixed) room in
            let inside : leb (fixed_code f min v) (raw_range f min max) ≡ true =
              le→leb _ _ (fixed_code-le t i f min max format v fixed) in
            rw (some_bits', whole', ordered', fit, apart, inside)
              (Writes-last field v (λ n s1. ok v s1) refl)
      ]
