-- ===== src/WriteStream/Relative.antt =====
-- About `serialize_int_relative` of src/stream.rs on a `WriteStream`.
use serialize_rs.Base.{
  ℕ, ◌+◌, ◌-◌, ◌%◌, ◌^◌, ◌≤◌, ◌<◌, ◌≡◌, refl, ap, ◌∙◌, arith, Bool, true, false, List, [], ◌∷◌, leb,
  ◌==◌, inl, inr, Bool-cases, le→leb, lt→leb,
}
use serialize_rs.Base.Int.{ℤ, pos, of_word, span, span_lem}
use serialize_rs.Outcome.{Outcome, ok, attempt}
use serialize_rs.BitWriter.Valid.{IsValid}
use serialize_rs.Stream.Code.{ranged_bits}
use serialize_rs.Stream.Raw.{serialize_bool}
use serialize_rs.Stream.Ranged.{serialize_int}
use serialize_rs.Stream.Relative.{
  Bucket, buckets, absolute_tier, bucket_tier, bucket_tiers, serialize_int_relative,
}
use serialize_rs.Stream.RelativeCode.{
  tier_bits, tier_code, relative_bits, relative_code, IsLadder, buckets-IsLadder,
}
use serialize_rs.WriteStream.{WriteStream, write_stream}
use serialize_rs.WriteStream.Writes.{Writes, Writes-as, Writes-attempt, Writes-last}
use serialize_rs.WriteStream.Basic.{serialize_bits-Writes}
use serialize_rs.WriteStream.Shared.{serialize_int-Writes, serialize_bool-Writes}

-- The distance in a word is the difference.
pub distance_lem : (p m : ℕ) → p < m → m < 2 ^ 31 → span 32 (pos p) (pos m) ≡ m - p
distance_lem p m h k =
    omega
      (arith, span_lem 32 (omega arith) (pos p) (pos m) (omega arith) (omega arith) (omega arith))

pub small_of_word : (x : ℕ) → x < 2 ^ 31 → of_word 32 x ≡ pos x
small_of_word x h = ground arith

module _ (checked : Bool) (p m : ℕ) (above : p < m) (small : m < 2 ^ 31) where
  absolute_tier-Writes :
      {s : WriteStream}
      → IsValid s.writer
      → s.writer.bits_written + 32 ≤ s.writer.num_bits
      → Writes s (pos m) m 32 (absolute_tier (write_stream checked) (pos p) (pos m) s)
  unfolding absolute_tier
  absolute_tier-Writes {s} valid room =
      let field =
        serialize_bits-Writes checked valid (m % 2 ^ 32) 32 (record {
          wide = omega arith;
          narrow = omega arith;
          small = omega arith;
          space = room;
        }) in
      Writes-as (Writes-last field (pos m) (λ value s1. ok (pos m) s1) refl) (omega arith) refl refl

  bucket_tier-Writes :
      (threshold lo hi : ℕ) {s : WriteStream}
      → IsValid s.writer
      → lo ≤ m - p
      → m - p ≤ hi
      → hi < 2 ^ 31
      → s.writer.bits_written + ranged_bits 32 (pos lo) (pos hi) ≤ s.writer.num_bits
      → Writes s
          (pos m)
          (span 32 (pos lo) (pos (m - p)))
          (ranged_bits 32 (pos lo) (pos hi))
          (bucket_tier (write_stream checked) (pos p) (m - p) (threshold, lo, hi) (pos m) s)
  unfolding bucket_tier
  bucket_tier-Writes threshold lo hi {s} valid over under fits room =
      let field =
        serialize_int-Writes checked valid (pos lo) (pos (m - p)) (pos hi) (omega arith)
          (omega arith) (omega arith) (omega arith) (omega arith) room in
      Writes-as (Writes-last field (pos m) (λ value s1. ok (pos m) s1) refl) refl refl (
        ap
          (λ (z : ℤ).
            attempt (pos m) (serialize_int (write_stream checked) z (pos lo) (pos hi) s)
              (λ value s1. ok (pos m) s1))
          (small_of_word (m - p) (omega arith)))

  bucket_tiers-Writes :
      (floor : ℕ) (tiers : List Bucket) {s : WriteStream}
      → IsValid s.writer
      → IsLadder floor tiers
      → floor ≤ m - p
      → s.writer.bits_written + tier_bits tiers (m - p) ≤ s.writer.num_bits
      → Writes s
          (pos m)
          (tier_code tiers (m - p) m)
          (tier_bits tiers (m - p))
          (bucket_tiers (write_stream checked) (pos p) (m - p) (pos m) tiers s)
  unfolding bucket_tiers
  bucket_tiers-Writes floor [] valid ladder over room = absolute_tier-Writes valid room
  bucket_tiers-Writes floor ((threshold, lo, hi) ∷ rest) {s} valid (at, top, wide, fits, ladder)
        over room =
      elim (Bool-cases (leb (m - p) threshold)) [
        | inl inside ↦
            let flag = serialize_bool-Writes checked valid true (ground (arith, inside)) in
            let value =
              bucket_tier-Writes threshold lo hi flag.valid (omega arith) (ground (arith, inside))
                fits (ground (arith, inside, flag.counted, flag.same_size)) in
            Writes-as (Writes-attempt flag (pos m) (tiers_next threshold lo hi rest) value)
              (rw inside refl) (rw inside refl) (rw inside refl)
        | inr outside ↦
            let flag = serialize_bool-Writes checked valid false (ground (arith, outside)) in
            let value =
              bucket_tiers-Writes (threshold + 1) rest flag.valid ladder (ground (arith, outside))
                (ground (arith, outside, flag.counted, flag.same_size)) in
            Writes-as (Writes-attempt flag (pos m) (tiers_next threshold lo hi rest) value)
              (rw outside (omega arith)) (rw outside refl) (rw outside refl)
      ]
    where
      tiers_next : (threshold lo hi : ℕ) → List Bucket → Bool → WriteStream → Outcome ℤ WriteStream
      tiers_next threshold lo hi rest in_bucket s1 = elim in_bucket [
        | true ↦ bucket_tier (write_stream checked) (pos p) (m - p) (threshold, lo, hi) (pos m) s1
        | false ↦ bucket_tiers (write_stream checked) (pos p) (m - p) (pos m) rest s1
      ]

  -- `serialize_int_relative` on a `WriteStream` with a valid writer, a previous value and a
  -- greater one, both in [0,i32::MAX], and room for the field, in either build: no panic and no
  -- error; what is appended is the code of the first tier that the difference fits, one flag bit
  -- for each tier passed over; the value is unchanged and the writer stays valid.
  pub serialize_int_relative-Writes :
      {s : WriteStream}
      → IsValid s.writer
      → s.writer.bits_written + relative_bits p m ≤ s.writer.num_bits
      → Writes s
          (pos m)
          (relative_code p m)
          (relative_bits p m)
          (serialize_int_relative (write_stream checked) (pos p) (pos m) s)
  unfolding serialize_int_relative
  serialize_int_relative-Writes {s} valid room = elim (Bool-cases (m - p == 1)) [
    | inl next ↦
        let flag = serialize_bool-Writes checked valid true (ground (arith, next)) in
        Writes-as (Writes-last flag (pos m) (relative_next (m - p)) refl) (rw next refl)
          (rw next refl)
          (starts (
            ap
              (λ (b : Bool).
                attempt (pos m) (serialize_bool (write_stream checked) b s) (relative_next (m - p)))
              next))
    | inr apart ↦
        let flag = serialize_bool-Writes checked valid false (ground (arith, apart)) in
        let value =
          bucket_tiers-Writes 2 buckets flag.valid buckets-IsLadder (ground (arith, apart))
            (ground (arith, apart, flag.counted, flag.same_size)) in
        Writes-as (Writes-attempt flag (pos m) (relative_next (m - p)) value)
          (rw apart (omega arith)) (rw apart refl)
          (starts (
            ap
              (λ (b : Bool).
                attempt (pos m) (serialize_bool (write_stream checked) b s) (relative_next (m - p)))
              apart))
  ]
    where
      relative_next : ℕ → Bool → WriteStream → Outcome ℤ WriteStream
      relative_next distance one_bit s1 = elim one_bit [
        | true ↦ ok (pos m) s1
        | false ↦ bucket_tiers (write_stream checked) (pos p) distance (pos m) buckets s1
      ]

      starts :
          {o : Outcome ℤ WriteStream}
          → attempt
              (pos m)
              (serialize_bool (write_stream checked) (m - p == 1) s)
              (relative_next (m - p))
            ≡ o
          → serialize_int_relative (write_stream checked) (pos p) (pos m) s ≡ o
      starts e = ordered_starts (
          ap
            (λ (d : ℕ).
              attempt (pos m) (serialize_bool (write_stream checked) (d == 1) s) (relative_next d))
            (distance_lem p m above small)
          ∙ e)
        where
          ordered_starts :
              {o : Outcome ℤ WriteStream}
              → attempt
                  (pos m)
                  (serialize_bool (write_stream checked) (span 32 (pos p) (pos m) == 1) s)
                  (relative_next (span 32 (pos p) (pos m)))
                ≡ o
              → serialize_int_relative (write_stream checked) (pos p) (pos m) s ≡ o
          ordered_starts e =
              rw (lt→leb (m + 0) (p + 0) (omega arith), le→leb 0 (p + 0) (omega arith)) e
