-- ===== src/MeasureStream/Fields.antt =====
-- About align, bytes, strings, the wide values and the relative integer on a `MeasureStream`.
use serialize_rs.Base.{
  ℕ, ◌+◌, ◌-◌, ◌*◌, ◌%◌, ◌^◌, ◌≤◌, ◌<◌, ◌≡◌, refl, ap, ◌∙◌, arith, Bool, true, false, List, [], ◌∷◌,
  length, leb, ◌==◌, inl, inr, Bool-cases, cast, shr, le→leb, lt→ltb, lt→leb,
}
use native.Mathlib.Nat.{mod-eq_of_lt}
use serialize_rs.Base.Int.{ℤ, pos, of_word}
use serialize_rs.Outcome.{Outcome, ok, attempt}
use serialize_rs.Stream.Code.{ranged_bits}
use serialize_rs.Stream.Raw.{serialize_bool}
use serialize_rs.Stream.Wide.{
  serialize_u128, serialize_f32, serialize_f64, float_bits_are_finite, double_bits_are_finite,
}
use serialize_rs.Stream.Relative.{
  Bucket, buckets, absolute_tier, bucket_tier, bucket_tiers, serialize_int_relative,
}
use serialize_rs.Stream.RelativeCode.{tier_bits, relative_bits, IsLadder, buckets-IsLadder}
use serialize_rs.Stream.StringCode.{length_bits, longest_lem}
use serialize_rs.Text.{has_nul}
use serialize_rs.MeasureStream.{MeasureStream, measure_stream, serialize_align, serialize_bytes}
use serialize_rs.MeasureStream.Strings.{serialize_string}
use serialize_rs.MeasureStream.Shared.{
  counted, serialize_bits-counted, serialize_bits64-counted, serialize_bool-counted,
  serialize_int-counted,
}
use serialize_rs.WriteStream.Relative.{distance_lem, small_of_word}

-- Two counts are one.
pub counted-counted :
    {A : Type 0} (a : A) (s : MeasureStream) (m n : ℕ)
    → ok a (counted (counted s m) n) ≡ ok a (counted s (m + n))
counted-counted a s m n = ap (λ (t : ℕ). ok a (record { bits_written = t })) (omega arith)

module _ (checked : Bool) (s : MeasureStream) where
  pub serialize_align-counted :
      s.bits_written + 7 < 2 ^ 64 → serialize_align checked s ≡ ok tt (counted s 7)
  unfolding serialize_align
  serialize_align-counted room = ap (λ (t : ℕ). ok tt (record { bits_written = t })) (omega arith)

  pub serialize_bytes-counted :
      (src : List ℕ)
      → s.bits_written + (7 + 8 * length src) < 2 ^ 64
      → serialize_bytes checked src s ≡ ok src (counted s (7 + 8 * length src))
  unfolding serialize_bytes serialize_align
  serialize_bytes-counted src room =
      (ap (λ (t : ℕ). ok src (record { bits_written = t })) (omega arith))

  pub serialize_u128-counted :
      (value : ℕ)
      → value < 2 ^ 128
      → s.bits_written + 128 < 2 ^ 64
      → serialize_u128 (measure_stream checked) value s ≡ ok value (counted s 128)
  unfolding serialize_u128
  serialize_u128-counted value small room =
      rw
        (
          serialize_bits64-counted checked s (value % 2 ^ 64) 64 (omega arith) (omega arith)
              (omega arith) (omega arith),
          serialize_bits64-counted checked (counted s 64) (cast 64 (shr 128 value 64)) 64
              (omega arith) (omega arith) (omega arith) (omega arith),
        )
        (counted-counted value s 64 64)

  pub serialize_f32-counted :
      (value : ℕ)
      → value < 2 ^ 32
      → float_bits_are_finite value ≡ true
      → s.bits_written + 32 < 2 ^ 64
      → serialize_f32 (measure_stream checked) value s ≡ ok value (counted s 32)
  unfolding serialize_f32
  serialize_f32-counted value small finite room =
      rw (finite, serialize_bits-counted checked s value 32 (omega arith) (omega arith) small room)
        refl

  pub serialize_f64-counted :
      (value : ℕ)
      → value < 2 ^ 64
      → double_bits_are_finite value ≡ true
      → s.bits_written + 64 < 2 ^ 64
      → serialize_f64 (measure_stream checked) value s ≡ ok value (counted s 64)
  unfolding serialize_f64
  serialize_f64-counted value small finite room =
      rw
        (finite, serialize_bits64-counted checked s value 64 (omega arith) (omega arith) small room)
        refl

  pub serialize_string-counted :
      (value : List ℕ) (buffer_size : ℕ)
      → has_nul value ≡ false
      → length value < buffer_size
      → buffer_size < 2 ^ 31
      → s.bits_written + (length_bits buffer_size + (7 + 8 * length value)) < 2 ^ 64
      → serialize_string checked value buffer_size s
        ≡ ok value (counted s (length_bits buffer_size + (7 + 8 * length value)))
  unfolding serialize_string serialize_align
  serialize_string-counted value buffer_size no_nul fits small room =
      rw
        (
          le→leb 1 buffer_size (omega arith),
          le→leb buffer_size 2147483647 (omega arith),
          lt→ltb (length value) buffer_size fits,
          no_nul,
          longest_lem buffer_size (omega arith) small,
          width,
          serialize_int-counted checked s (pos 0) (pos (length value)) (pos (buffer_size - 1))
              (omega arith) (omega arith) (omega arith) (omega arith) (omega arith) (omega arith),
        )
        (ap (λ (t : ℕ). ok value (record { bits_written = t })) (omega arith))
    where
      width : of_word 32 (cast 32 (length value)) ≡ pos (length value)
      width =
          ap (of_word 32) (mod-eq_of_lt (omega arith)) ∙ small_of_word (length value) (omega arith)

module _ (checked : Bool) (p m : ℕ) (above : p < m) (small : m < 2 ^ 31) where
  bucket_tiers-counted :
      (floor : ℕ) (tiers : List Bucket) (s : MeasureStream)
      → IsLadder floor tiers
      → floor ≤ m - p
      → s.bits_written + tier_bits tiers (m - p) < 2 ^ 64
      → bucket_tiers (measure_stream checked) (pos p) (m - p) (pos m) tiers s
        ≡ ok (pos m) (counted s (tier_bits tiers (m - p)))
  unfolding bucket_tiers bucket_tier absolute_tier
  bucket_tiers-counted floor [] s ladder over room =
      rw
        (serialize_bits-counted checked s (m % 2 ^ 32) 32 (omega arith) (omega arith) (omega arith)
          room)
        refl
  bucket_tiers-counted floor ((threshold, lo, hi) ∷ rest) s (at, top, wide, fits, ladder) over
        room =
      elim (Bool-cases (leb (m - p) threshold)) [
        | inl inside ↦
            rw
              (
                inside,
                serialize_bool-counted checked s true (ground (arith, inside)),
                small_of_word (m - p) (omega arith),
                serialize_int-counted checked (counted s 1) (pos lo) (pos (m - p)) (pos hi)
                    (omega arith) (ground (arith, inside)) (omega arith) (omega arith) (omega arith)
                    (ground (arith, inside)),
              )
              (counted-counted (pos m) s 1 (ranged_bits 32 (pos lo) (pos hi)))
        | inr outside ↦
            rw
              (
                outside,
                serialize_bool-counted checked s false (ground (arith, outside)),
                bucket_tiers-counted (threshold + 1) rest (counted s 1) ladder
                    (ground (arith, outside)) (ground (arith, outside)),
              )
              (counted-counted (pos m) s 1 (tier_bits rest (m - p)))
      ]

  pub serialize_int_relative-counted :
      (s : MeasureStream)
      → s.bits_written + relative_bits p m < 2 ^ 64
      → serialize_int_relative (measure_stream checked) (pos p) (pos m) s
        ≡ ok (pos m) (counted s (relative_bits p m))
  unfolding serialize_int_relative
  serialize_int_relative-counted s room =
      rw (le→leb 0 (p + 0) (omega arith), lt→leb (m + 0) (p + 0) (omega arith))
        (ap
            (λ (d : ℕ).
              attempt (pos m) (serialize_bool (measure_stream checked) (d == 1) s)
                (relative_next d))
            (distance_lem p m above small)
          ∙ elim (Bool-cases (m - p == 1)) [
            | inl next ↦
                rw (next, serialize_bool-counted checked s true (ground (arith, next))) refl
            | inr apart ↦
                rw
                  (
                    apart,
                    serialize_bool-counted checked s false (ground (arith, apart)),
                    bucket_tiers-counted 2 buckets (counted s 1) buckets-IsLadder
                        (ground (arith, apart)) (ground (arith, apart)),
                  )
                  (counted-counted (pos m) s 1 (tier_bits buckets (m - p)))
          ])
    where
      relative_next : ℕ → Bool → MeasureStream → Outcome ℤ MeasureStream
      relative_next distance one_bit s1 = elim one_bit [
        | true ↦ ok (pos m) s1
        | false ↦ bucket_tiers (measure_stream checked) (pos p) distance (pos m) buckets s1
      ]
