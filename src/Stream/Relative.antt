-- ===== src/Stream/Relative.antt =====
-- src/stream.rs: `serialize_int_relative`.
use serialize_rs.Base.{
  ℕ, Bool, true, false, List, [], ◌∷◌, ◌&&◌, ◌||◌, not, leb, ◌==◌, if◌then◌else◌, sub_word,
}
use serialize_rs.Base.Int.{ℤ, pos, leb_ℤ, add_ℤ, sub_ℤ, to_word, of_word}
use serialize_rs.Error.{value_out_of_range, non_canonical}
use serialize_rs.Outcome.{Outcome, ok, attempt, assert_then}
use serialize_rs.Stream.{Stream, declaration_check, fail_with}
use serialize_rs.Stream.Raw.{serialize_bool}
use serialize_rs.Stream.Ranged.{serialize_int}

-- `[0,i32::MAX]`, and above `previous`.
abbrev pub int_relative_in_domain : ℤ → ℤ → Bool
int_relative_in_domain previous reconstructed =
    leb_ℤ (pos 0) reconstructed
    && leb_ℤ reconstructed (pos 2147483647)
    && not (leb_ℤ reconstructed previous)

-- The threshold, the lowest and the highest difference.
abbrev pub Bucket : Type 0
Bucket = ℕ × ℕ × ℕ

abbrev pub buckets : List Bucket
buckets = (6, 2, 6) ∷ (23, 7, 23) ∷ (280, 24, 280) ∷ (4377, 281, 4377) ∷ (69914, 4378, 69914) ∷ []

module _ {S : Type 0} (stream : Stream S) where
  open stream use {checked, is_writing, is_reading, serialize_bits}

  unfoldable pub accept_int_relative : ℤ → ℤ → ℤ → S → Outcome ℤ S
  accept_int_relative previous reconstructed current s =
      if int_relative_in_domain previous reconstructed
      then ok (of_word 32 (to_word 32 reconstructed)) s
      else fail_with stream value_out_of_range current s

  -- The absolute tier: `current` itself, unsigned.
  unfoldable pub absolute_tier : ℤ → ℤ → S → Outcome ℤ S
  absolute_tier previous current s =
      attempt current (serialize_bits (if is_writing then to_word 32 current else 0) 32 s)
        λ value s1.
          if is_reading
          then (let reconstructed = pos value in
              if not (int_relative_in_domain previous reconstructed)
              then fail_with stream value_out_of_range current s1
              else if leb_ℤ (sub_ℤ reconstructed previous) (pos 69914)
              then fail_with stream non_canonical current s1
              else ok (of_word 32 (to_word 32 reconstructed)) s1)
          else ok current s1

  -- A value in its bucket.
  unfoldable pub bucket_tier : ℤ → ℕ → Bucket → ℤ → S → Outcome ℤ S
  unfolding serialize_int accept_int_relative
  bucket_tier previous distance (_, bucket_min, bucket_max) current s =
      attempt current
        (serialize_int stream (if is_writing then of_word 32 distance else pos 0) (pos bucket_min)
          (pos bucket_max) s)
        λ bucket_difference s1.
          if is_reading
          then accept_int_relative previous (add_ℤ previous bucket_difference) current s1
          else ok current s1

  -- The loop over the buckets, and what follows it.
  unfoldable pub bucket_tiers : ℤ → ℕ → ℤ → List Bucket → S → Outcome ℤ S
  unfolding serialize_bool bucket_tier absolute_tier
  bucket_tiers previous distance current [] s = absolute_tier previous current s
  bucket_tiers previous distance current (bucket ∷ rest) s =
      attempt current (serialize_bool stream (is_writing && leb distance bucket.0) s)
        λ in_bucket s1. elim in_bucket [
          | true ↦ bucket_tier previous distance bucket current s1
          | false ↦ bucket_tiers previous distance current rest s1
        ]

  unfoldable pub serialize_int_relative : ℤ → ℤ → S → Outcome ℤ S
  unfolding serialize_bool bucket_tiers accept_int_relative
  serialize_int_relative previous current s =
      declaration_check stream (leb_ℤ (pos 0) previous) current s (
        assert_then checked (not is_writing || not (leb_ℤ current previous)) (
          let distance =
            if is_writing then sub_word 32 (to_word 32 current) (to_word 32 previous) else 0 in
          attempt current (serialize_bool stream (is_writing && distance == 1) s) λ one_bit s1.
            elim one_bit [
              | true ↦
                  (if is_reading
                    then accept_int_relative previous (add_ℤ previous (pos 1)) current s1
                    else ok current s1)
              | false ↦ bucket_tiers previous distance current buckets s1
            ]))
