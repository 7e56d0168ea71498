-- ===== src/MeasureStream/Shared.antt =====
-- About the shared operations of src/stream.rs on a `MeasureStream`: what each counts.
use serialize_rs.Base.{
  ℕ, ◌+◌, ◌-◌, ◌/◌, ◌%◌, ◌^◌, ◌≤◌, ◌<◌, ◌≡◌, ap, ◌∙◌, arith, Bool, leb, if◌then◌else◌, inl, inr,
  Bool-cases, cast, shl, shr, bit_or, pow_mono,
}
use native.Mathlib.Nat.{mod-eq_of_lt}
use native.Mathlib.Decide.{dec_le}
use serialize_rs.Base.Int.{ℤ, ◌≤ℤ◌, eq_ℤ, IsSigned, span}
use serialize_rs.BitsRequired.{bits_required, bits_required64}
use serialize_rs.Outcome.{Outcome, ok, attempt}
use serialize_rs.Stream.{refuse_if_failed}
use serialize_rs.Stream.Raw.{serialize_dwords, serialize_bits64, serialize_bool}
use serialize_rs.Stream.Dwords.{low_dword, high_dword, join_dwords, high_dword-lt}
use serialize_rs.Stream.Ranged.{serialize_degenerate, decode_offset, serialize_int, serialize_int64}
use serialize_rs.Stream.Code.{
  ranged_bits, code-le-range, ranged-IsFewest, degenerate_code, in_range,
}
use serialize_rs.MeasureStream.{MeasureStream, measure_stream, serialize_bits, gate}

abbrev pub counted : MeasureStream → ℕ → MeasureStream
counted s bits = record { bits_written = s.bits_written + bits }

shift : (bits : ℕ) → bits ≤ 32 → shl 64 1 bits ≡ 2 ^ bits
shift bits h = omega (arith, ap (λ (t : ℕ). 2 ^ t) amount, fits)
  where
    amount : bits % 64 ≡ bits
    amount = omega arith

    fits : 2 ^ bits % 2 ^ 64 ≡ 2 ^ bits
    fits = mod-eq_of_lt (omega (arith, pow_mono {b = 32} h))

module _ (checked : Bool) (s : MeasureStream) where
  pub serialize_bits-counted :
      (value bits : ℕ)
      → 1 ≤ bits
      → bits ≤ 32
      → value < 2 ^ bits
      → s.bits_written + bits < 2 ^ 64
      → serialize_bits checked value bits s ≡ ok value (counted s bits)
  unfolding serialize_bits
  serialize_bits-counted value bits lo hi small room = ground (arith, shift bits hi)

  pub degenerate-counted :
      (v min : ℤ) → serialize_degenerate (measure_stream checked) v min s ≡ ok v (counted s 0)
  unfolding serialize_degenerate refuse_if_failed gate
  degenerate-counted v min = ap (λ (t : ℕ). ok v (record { bits_written = t })) (omega arith)

module _ (checked : Bool) (s : MeasureStream) where
  serialize_dwords-counted :
      (value bits : ℕ)
      → 32 < bits
      → bits ≤ 64
      → value < 2 ^ bits
      → s.bits_written + bits < 2 ^ 64
      → serialize_dwords (measure_stream checked) value bits s ≡ ok value (counted s bits)
  unfolding serialize_dwords
  serialize_dwords-counted value bits h k small room =
      ap (λ (t : ℕ). both t (cast 32 (shr 64 value 32))) (low_dword value)
      ∙ ap (λ (t : ℕ). both (value % 2 ^ 32) t) (high_dword value small_word)
      ∙ rw
          (
            serialize_bits-counted checked s (value % 2 ^ 32) 32 (omega arith) (omega arith)
                (omega arith) (omega arith),
            serialize_bits-counted checked (counted s 32) (value / 2 ^ 32) (bits - 32) (omega arith)
                (omega arith) (high_dword-lt bits value h small) (omega arith),
          )
          (ap (λ (t : ℕ). ok t (counted (counted s 32) (bits - 32))) joined
            ∙ ap (λ (t : ℕ). ok value (record { bits_written = t })) (omega arith))
    where
      both : ℕ → ℕ → Outcome ℕ MeasureStream
      both lo hi = attempt value (serialize_bits checked lo 32 s) λ n s1.
          attempt value (serialize_bits checked hi (bits - 32) s1)
            λ m s2. ok (bit_or (shl 64 m 32) n) s2

      small_word : value < 2 ^ 64
      small_word = omega (arith, small, bound)
        where
          bound : 2 ^ bits ≤ 2 ^ 64
          bound = pow_mono {b = 64} k

      joined : bit_or (shl 64 (value / 2 ^ 32) 32) (value % 2 ^ 32) ≡ value
      joined =
          join_dwords (value % 2 ^ 32) (value / 2 ^ 32) (omega arith) (omega (arith, small_word))
          ∙ omega arith

  groups-counted :
      (value bits : ℕ)
      → 1 ≤ bits
      → bits ≤ 64
      → value < 2 ^ bits
      → s.bits_written + bits < 2 ^ 64
      → (if leb bits 32
          then serialize_bits checked (cast 32 value) bits s
          else serialize_dwords (measure_stream checked) value bits s)
        ≡ ok value (counted s bits)
  groups-counted value bits some_bits k small room = elim (dec_le bits 32) [
    | yes one ↦
        ground
          (arith, whole one, serialize_bits-counted checked s value bits some_bits one small room)
    | no two ↦ ground (arith, serialize_dwords-counted value bits (omega arith) k small room)
  ]
    where
      whole : bits ≤ 32 → cast 32 value ≡ value
      whole one = mod-eq_of_lt (omega (arith, small, pow_mono {b = 32} one))

  module _ (min v max : ℤ) (lo : min ≤ℤ v) (hi : v ≤ℤ max) where
    pub serialize_int-counted :
        IsSigned 32 min
        → IsSigned 32 v
        → IsSigned 32 max
        → s.bits_written + ranged_bits 32 min max < 2 ^ 64
        → serialize_int (measure_stream checked) v min max s
          ≡ ok v (counted s (ranged_bits 32 min max))
    unfolding serialize_int bits_required decode_offset
    serialize_int-counted fits_min fits_v fits_max room = elim (Bool-cases (eq_ℤ min max)) [
      | inl same ↦
          let (_, no_bits) =
            degenerate_code 32 (omega arith) min v max fits_min fits_v fits_max lo hi same in
          ground (arith, same, degenerate-counted checked s v min, ap (counted s) no_bits)
      | inr range ↦
          let fewest =
            ranged-IsFewest 32 (omega arith) min v max fits_min fits_v fits_max lo hi range in
          ground (
            arith,
            range,
            serialize_bits-counted checked s (span 32 min v) (ranged_bits 32 min max)
                fewest.some_bits fewest.at_most
                (omega (
                  arith,
                  fewest.enough,
                  code-le-range 32 (omega arith) min v max fits_min fits_v fits_max lo hi,
                ))
                room,
          )
    ]

    pub serialize_int64-counted :
        IsSigned 64 min
        → IsSigned 64 v
        → IsSigned 64 max
        → s.bits_written + ranged_bits 64 min max < 2 ^ 64
        → serialize_int64 (measure_stream checked) v min max s
          ≡ ok v (counted s (ranged_bits 64 min max))
    unfolding serialize_int64 bits_required64 decode_offset
    serialize_int64-counted fits_min fits_v fits_max room = elim (Bool-cases (eq_ℤ min max)) [
      | inl same ↦
          let (_, no_bits) =
            degenerate_code 64 (omega arith) min v max fits_min fits_v fits_max lo hi same in
          ground (arith, same, degenerate-counted checked s v min, ap (counted s) no_bits)
      | inr range ↦
          let fewest =
            ranged-IsFewest 64 (omega arith) min v max fits_min fits_v fits_max lo hi range in
          ground (
            arith,
            range,
            groups-counted (span 64 min v) (ranged_bits 64 min max) fewest.some_bits fewest.at_most
                (omega (
                  arith,
                  fewest.enough,
                  code-le-range 64 (omega arith) min v max fits_min fits_v fits_max lo hi,
                ))
                room,
          )
    ]

  pub serialize_bits64-counted :
      (value bits : ℕ)
      → 1 ≤ bits
      → bits ≤ 64
      → value < 2 ^ bits
      → s.bits_written + bits < 2 ^ 64
      → serialize_bits64 (measure_stream checked) value bits s ≡ ok value (counted s bits)
  unfolding serialize_bits64
  serialize_bits64-counted value bits some_bits k small room = elim (dec_le bits 32) [
    | yes one ↦
        ground
          (arith, in_range value bits k small, groups-counted value bits some_bits k small room)
    | no two ↦
        ground
          (arith, in_range value bits k small, groups-counted value bits some_bits k small room)
  ]

  pub serialize_bool-counted :
      (v : Bool)
      → s.bits_written + 1 < 2 ^ 64
      → serialize_bool (measure_stream checked) v s ≡ ok v (counted s 1)
  unfolding serialize_bool
  serialize_bool-counted v room =
      ground (arith, serialize_bits-counted checked s (if v then 1 else 0) 1)
