-- ===== src/ReadStream/Relative.antt =====
-- About `serialize_int_relative` of src/stream.rs on a `ReadStream`, over any bytes.
use serialize_rs.Base.{
  ℕ, ◌+◌, ◌^◌, ◌<◌, ◌≡◌, arith, Bool, true, false, none, List, [], ◌∷◌, not, if◌then◌else◌, inl,
  inr, Bool-cases,
}
use serialize_rs.Base.Int.{
  ℤ, pos, negsuc, pos_part, neg_part, ◌≤ℤ◌, leb_ℤ, add_ℤ, sub_ℤ, to_word, of_word, of_word-to_word,
}
use serialize_rs.Error.{value_out_of_range, non_canonical}
use serialize_rs.Outcome.{ok, attempt}
use serialize_rs.BitReader.Valid.{IsValid}
use serialize_rs.Stream.Relative.{
  int_relative_in_domain, Bucket, buckets, accept_int_relative, absolute_tier, bucket_tier,
  bucket_tiers, serialize_int_relative,
}
use serialize_rs.ReadStream.{ReadStream, read_stream}
use serialize_rs.ReadStream.Obligations.{Obeys, Obeys-attempt}
use serialize_rs.ReadStream.Basic.{refusing, serialize_bits-Obeys}
use serialize_rs.ReadStream.Raw.{Below, accepting, serialize_bool-Obeys}
use serialize_rs.ReadStream.Ranged.{Between, serialize_int-Obeys}

-- In the domain, and above `previous`.
abbrev pub Above : ℤ → ℤ → ReadStream → Type 0
Above previous v _ =
    (pos 0 ≤ℤ v)
    × (v ≤ℤ pos 2147483647)
    × (pos_part previous + neg_part v < pos_part v + neg_part previous)

-- Every bucket's bounds are numbers of `i32`.
abbrev pub AreBuckets : List Bucket → Type 0
AreBuckets [] = Unit {0}
AreBuckets ((_, lo, hi) ∷ rest) = (lo < 2 ^ 31) × (hi < 2 ^ 31) × AreBuckets rest

-- A value in the domain is its own `i32`.
pub narrow_lem : (v : ℤ) → pos 0 ≤ℤ v → v ≤ℤ pos 2147483647 → of_word 32 (to_word 32 v) ≡ v
narrow_lem (pos n) lo hi = of_word-to_word 32 (omega arith) (pos n) (omega arith)
narrow_lem (negsuc n) lo hi = absurd (omega arith)

module _ (checked : Bool) (previous : ℤ) where
  Above-narrow :
      (v : ℤ) (s : ReadStream) → Above previous v s → Above previous (of_word 32 (to_word 32 v)) s
  Above-narrow v s (a, b, c) = rw (narrow_lem v a b) (a, b, c)

  accept_int_relative-Obeys :
      (reconstructed dest : ℤ) (s : ReadStream)
      → IsValid s.reader
      → s.failed ≡ none
      → Obeys
          (Above previous)
          dest
          s
          (accept_int_relative (read_stream checked) previous reconstructed dest s)
  unfolding accept_int_relative
  accept_int_relative-Obeys reconstructed dest s valid fresh =
      elim (Bool-cases (int_relative_in_domain previous reconstructed)) [
        | inr outside ↦ rw outside (refusing (Above previous) dest value_out_of_range s valid)
        | inl inside ↦ rw inside (
            accepting (Above previous) dest _ s valid fresh
              (Above-narrow reconstructed s (ground arith)))
      ]

  absolute_value-Obeys :
      (value : ℕ) (dest : ℤ) (s : ReadStream)
      → IsValid s.reader
      → s.failed ≡ none
      → Obeys (Above previous) dest s (
          if not (int_relative_in_domain previous (pos value))
          then attempt dest ((read_stream checked).fail value_out_of_range s) (λ _ s1. ok dest s1)
          else if leb_ℤ (sub_ℤ (pos value) previous) (pos 69914)
          then attempt dest ((read_stream checked).fail non_canonical s) (λ _ s1. ok dest s1)
          else ok (of_word 32 (to_word 32 (pos value))) s)
  absolute_value-Obeys value dest s valid fresh =
      elim (Bool-cases (int_relative_in_domain previous (pos value))) [
        | inr outside ↦ rw outside (refusing (Above previous) dest value_out_of_range s valid)
        | inl inside ↦ elim (Bool-cases (leb_ℤ (sub_ℤ (pos value) previous) (pos 69914))) [
          | inl near ↦ rw (inside, near) (refusing (Above previous) dest non_canonical s valid)
          | inr far ↦
              rw (inside, far)
                (accepting (Above previous) dest _ s valid fresh
                  (Above-narrow (pos value) s (ground arith)))
        ]
      ]

  absolute_tier-Obeys :
      (dest : ℤ) (s : ReadStream)
      → IsValid s.reader
      → Obeys (Above previous) dest s (absolute_tier (read_stream checked) previous dest s)
  unfolding absolute_tier
  absolute_tier-Obeys dest s valid =
      Obeys-attempt (Below 32) (Above previous) dest 0 s _ _
        (serialize_bits-Obeys checked 0 32 s valid (omega arith))
        λ value s1 _ valid1 fresh. absolute_value-Obeys value dest s1 valid1 fresh

  bucket_tiers-Obeys :
      (distance : ℕ) (dest : ℤ) (tiers : List Bucket) (s : ReadStream)
      → AreBuckets tiers
      → IsValid s.reader
      → Obeys
          (Above previous)
          dest
          s
          (bucket_tiers (read_stream checked) previous distance dest tiers s)
  unfolding bucket_tiers bucket_tier
  bucket_tiers-Obeys distance dest [] s _ valid = absolute_tier-Obeys dest s valid
  bucket_tiers-Obeys distance dest ((threshold, lo, hi) ∷ rest) s (lo_fits, hi_fits, fits) valid =
      Obeys-attempt (λ _ _. Unit {0}) (Above previous) dest _ s _ _
        (serialize_bool-Obeys checked _ s valid)
        λ in_bucket s1 _ valid1 fresh1.
          elim in_bucket
            as (λ b. Obeys (Above previous) dest s1 (elim b [
              | true ↦
                  bucket_tier (read_stream checked) previous distance (threshold, lo, hi) dest s1
              | false ↦ bucket_tiers (read_stream checked) previous distance dest rest s1
            ])) [
              | true ↦
                  Obeys-attempt (Between (pos lo) (pos hi)) (Above previous) dest _ s1 _ _
                    (serialize_int-Obeys checked _ (pos lo) (pos hi) s1 (omega arith) (omega arith)
                      valid1)
                    λ n s2 _ valid2 fresh2.
                      accept_int_relative-Obeys (add_ℤ previous n) dest s2 valid2 fresh2
              | false ↦ bucket_tiers-Obeys distance dest rest s1 fits valid1
            ]

  -- `serialize_int_relative` on a `ReadStream` with a valid reader and any previous value, right
  -- or wrong, in either build: no panic; a value that is accepted, from whichever tier, lies in
  -- [0,i32::MAX] and above the previous value, and comes from a stream that had not failed; a
  -- refusal, in any tier, leaves the destination as it was and latches the error returned; a
  -- stream that had failed refuses for its first reason and does not change; the reader stays
  -- valid over the same packet and never moves back.
  pub serialize_int_relative-Obeys :
      (dest : ℤ) (s : ReadStream)
      → IsValid s.reader
      → Obeys (Above previous) dest s (serialize_int_relative (read_stream checked) previous dest s)
  unfolding serialize_int_relative
  serialize_int_relative-Obeys dest s valid = elim (Bool-cases (leb_ℤ (pos 0) previous)) [
    | inr outside ↦ rw outside (refusing (Above previous) dest value_out_of_range s valid)
    | inl inside ↦ rw inside (
        Obeys-attempt (λ _ _. Unit {0}) (Above previous) dest _ s _ _
          (serialize_bool-Obeys checked _ s valid)
          λ one_bit s1 _ valid1 fresh1.
            elim one_bit
              as (λ b. Obeys (Above previous) dest s1 (elim b [
                | true ↦
                    accept_int_relative (read_stream checked) previous (add_ℤ previous (pos 1)) dest
                      s1
                | false ↦ bucket_tiers (read_stream checked) previous 0 dest buckets s1
              ])) [
                | true ↦ accept_int_relative-Obeys (add_ℤ previous (pos 1)) dest s1 valid1 fresh1
                | false ↦ bucket_tiers-Obeys 0 dest buckets s1 (ground arith) valid1
              ])
  ]
