-- ===== src/ReadStream/Wide.antt =====
-- About the 128-bit operations of src/stream.rs on a `ReadStream`, over any bytes.
use serialize_rs.Base.{
  ℕ, ◌+◌, ◌-◌, ◌*◌, ◌^◌, ◌≤◌, ◌<◌, ◌≡◌, ap, arith, Bool, none, leb, inl, inr, Bool-cases, shl,
  bit_or, bit_or_below, pow_mono, leb→le, leb→lt, le→leb,
}
use serialize_rs.Base.Int.{ℤ, leb_ℤ, eq_ℤ, IsSigned, span}
use serialize_rs.BitsRequired.{bits_required128}
use serialize_rs.Error.{value_out_of_range}
use serialize_rs.Outcome.{ok, attempt}
use serialize_rs.BitReader.Valid.{IsValid}
use serialize_rs.Stream.Wide.{serialize_u128, serialize_offset128, serialize_int128, join_groups}
use serialize_rs.Stream.Dwords.{high-small, two_dwords-lt}
use serialize_rs.ReadStream.{ReadStream, read_stream, serialize_bits}
use serialize_rs.ReadStream.Obligations.{Obeys, Obeys-attempt}
use serialize_rs.ReadStream.Basic.{refusing, serialize_bits-Obeys}
use serialize_rs.ReadStream.Raw.{Below, accepting, serialize_bits64-Obeys}
use serialize_rs.ReadStream.Ranged.{
  Between, decode_offset-Obeys, range-IsFewest, serialize_degenerate-Obeys,
}
use serialize_rs.Stream.Groups.{join_groups_lem, three-lt, four-lt, last_group}

module _ (checked : Bool) where
  pub serialize_u128-Obeys :
      (dest : ℕ) (s : ReadStream)
      → IsValid s.reader
      → Obeys (Below 128) dest s (serialize_u128 (read_stream checked) dest s)
  unfolding serialize_u128
  serialize_u128-Obeys dest s valid =
      Obeys-attempt (Below 64) (Below 128) dest _ s _ _
        (serialize_bits64-Obeys checked _ 64 s valid)
        λ lo s1 small_lo valid1 fresh1.
          Obeys-attempt (Below 64) (Below 128) dest _ s1 _ _
            (serialize_bits64-Obeys checked _ 64 s1 valid1)
            λ hi s2 small_hi valid2 fresh2.
              accepting (Below 128) dest (bit_or (shl 128 hi 64) lo) s2 valid2 fresh2
                (halves lo hi small_lo small_hi)
    where
      halves : (lo hi : ℕ) → lo < 2 ^ 64 → hi < 2 ^ 64 → bit_or (shl 128 hi 64) lo < 2 ^ 128
      halves lo hi p q = omega (arith, ap (λ (t : ℕ). bit_or t lo) shifted, bit_or_below 64 hi lo p)
        where
          shifted : shl 128 hi 64 ≡ 2 ^ 64 * hi
          shifted = omega arith

  -- The offset's groups, one to four.
  joined-Below :
      (bits a b c d : ℕ) (s : ReadStream)
      → a < 2 ^ 32
      → b < 2 ^ 32
      → c < 2 ^ 32
      → d < 2 ^ 32
      → a + 2 ^ 32 * (b + 2 ^ 32 * (c + 2 ^ 32 * d)) < 2 ^ bits
      → IsValid s.reader
      → s.failed ≡ none
      → Obeys (Below bits) 0 s (ok (join_groups a b c d) s)
  joined-Below bits a b c d s ha hb hc hd small valid fresh =
      accepting (Below bits) 0 (join_groups a b c d) s valid fresh
        (omega (arith, join_groups_lem a b c d ha hb hc hd))

  one_group-Obeys :
      (bits : ℕ) (s : ReadStream)
      → IsValid s.reader
      → bits ≤ 32
      → Obeys
          (Below bits)
          0
          s
          (attempt 0 (serialize_bits checked 0 bits s) λ g0 s1. ok (join_groups g0 0 0 0) s1)
  one_group-Obeys bits s valid hi =
      Obeys-attempt (Below bits) (Below bits) 0 _ s _ _
        (serialize_bits-Obeys checked 0 bits s valid (omega arith))
        λ a s1 ha v1 f1.
          joined-Below bits a 0 0 0 s1 (omega (arith, ha, pow_mono {b = 32} hi)) (omega arith)
            (omega arith) (omega arith) (omega (arith, ha)) v1 f1

  two_groups-Obeys :
      (bits : ℕ) (s : ReadStream)
      → IsValid s.reader
      → 32 < bits
      → bits ≤ 64
      → Obeys (Below bits) 0 s (
          attempt 0 (serialize_bits checked 0 32 s) λ g0 s1.
            attempt 0
              (serialize_bits checked 0 (bits - 32) s1)
              λ g1 s2. ok (join_groups g0 g1 0 0) s2)
  two_groups-Obeys bits s valid lo hi =
      Obeys-attempt (Below 32) (Below bits) 0 _ s _ _
        (serialize_bits-Obeys checked 0 32 s valid (omega arith))
        λ a s1 ha v1 f1.
          Obeys-attempt (Below (bits - 32)) (Below bits) 0 _ s1 _ _
            (serialize_bits-Obeys checked 0 (bits - 32) s1 v1 (omega arith))
            λ b s2 hb v2 f2.
              joined-Below bits a b 0 0 s2 ha (high-small b bits hi hb) (omega arith) (omega arith)
                (omega (arith, two_dwords-lt bits a b lo ha hb)) v2 f2

  three_groups-Obeys :
      (bits : ℕ) (s : ReadStream)
      → IsValid s.reader
      → 64 < bits
      → bits ≤ 96
      → Obeys (Below bits) 0 s (
          attempt 0 (serialize_bits checked 0 32 s) λ g0 s1.
            attempt 0 (serialize_bits checked 0 32 s1) λ g1 s2.
              attempt 0
                (serialize_bits checked 0 (bits - 64) s2)
                λ g2 s3. ok (join_groups g0 g1 g2 0) s3)
  three_groups-Obeys bits s valid lo hi =
      Obeys-attempt (Below 32) (Below bits) 0 _ s _ _
        (serialize_bits-Obeys checked 0 32 s valid (omega arith))
        λ a s1 ha v1 f1.
          Obeys-attempt (Below 32) (Below bits) 0 _ s1 _ _
            (serialize_bits-Obeys checked 0 32 s1 v1 (omega arith))
            λ b s2 hb v2 f2.
              Obeys-attempt (Below (bits - 64)) (Below bits) 0 _ s2 _ _
                (serialize_bits-Obeys checked 0 (bits - 64) s2 v2 (omega arith))
                λ c s3 hc v3 f3.
                  joined-Below bits a b c 0 s3 ha hb (last_group c 64 bits hi hc) (omega arith)
                    (omega (arith, three-lt bits a b c lo ha hb hc)) v3 f3

  four_groups-Obeys :
      (bits : ℕ) (s : ReadStream)
      → IsValid s.reader
      → 96 < bits
      → bits ≤ 128
      → Obeys (Below bits) 0 s (
          attempt 0 (serialize_bits checked 0 32 s) λ g0 s1.
            attempt 0 (serialize_bits checked 0 32 s1) λ g1 s2.
              attempt 0 (serialize_bits checked 0 32 s2) λ g2 s3.
                attempt 0
                  (serialize_bits checked 0 (bits - 96) s3)
                  λ g3 s4. ok (join_groups g0 g1 g2 g3) s4)
  four_groups-Obeys bits s valid lo hi =
      Obeys-attempt (Below 32) (Below bits) 0 _ s _ _
        (serialize_bits-Obeys checked 0 32 s valid (omega arith))
        λ a s1 ha v1 f1.
          Obeys-attempt (Below 32) (Below bits) 0 _ s1 _ _
            (serialize_bits-Obeys checked 0 32 s1 v1 (omega arith))
            λ b s2 hb v2 f2.
              Obeys-attempt (Below 32) (Below bits) 0 _ s2 _ _
                (serialize_bits-Obeys checked 0 32 s2 v2 (omega arith))
                λ c s3 hc v3 f3.
                  Obeys-attempt (Below (bits - 96)) (Below bits) 0 _ s3 _ _
                    (serialize_bits-Obeys checked 0 (bits - 96) s3 v3 (omega arith))
                    λ d s4 hd v4 f4.
                      joined-Below bits a b c d s4 ha hb hc (last_group d 96 bits hi hd)
                        (four-lt bits a b c d lo ha hb hc hd) v4 f4

  pub serialize_offset128-Obeys :
      (bits : ℕ) (s : ReadStream)
      → IsValid s.reader
      → 1 ≤ bits
      → bits ≤ 128
      → Obeys (Below bits) 0 s (serialize_offset128 (read_stream checked) 0 bits s)
  unfolding serialize_offset128
  serialize_offset128-Obeys bits s valid lo hi =
      rw (le→leb 1 bits lo, le→leb bits 128 hi)
        (elim (Bool-cases (leb bits 32)) [
          | inl one ↦ rw one (one_group-Obeys bits s valid (leb→le bits 32 one))
          | inr above32 ↦ elim (Bool-cases (leb bits 64)) [
            | inl two ↦
                rw (above32, two)
                  (two_groups-Obeys bits s valid (leb→lt bits 32 above32) (leb→le bits 64 two))
            | inr above64 ↦ elim (Bool-cases (leb bits 96)) [
              | inl three ↦
                  rw (above32, above64, three)
                    (three_groups-Obeys bits s valid (leb→lt bits 64 above64)
                      (leb→le bits 96 three))
              | inr above96 ↦
                  rw (above32, above64, above96)
                    (four_groups-Obeys bits s valid (leb→lt bits 96 above96) hi)
            ]
          ]
        ])

  -- `serialize_int128` on a `ReadStream` with a valid reader, for any two bounds of `i128`, in
  -- either build: no panic; it accepts only if the stream had not failed, and then the value
  -- lies between the bounds; a refusal, in any of the one to four groups or past the range,
  -- leaves the destination as it was and latches the error returned; a stream that had failed
  -- refuses for its first reason and does not change; the reader stays valid over the same
  -- packet and never moves back.
  pub serialize_int128-Obeys :
      (dest min max : ℤ) (s : ReadStream)
      → IsSigned 128 min
      → IsSigned 128 max
      → IsValid s.reader
      → Obeys (Between min max) dest s (serialize_int128 (read_stream checked) dest min max s)
  unfolding serialize_int128 bits_required128
  serialize_int128-Obeys dest min max s lo hi valid = elim (Bool-cases (leb_ℤ min max)) [
    | inr inverted ↦ rw inverted (refusing (Between min max) dest value_out_of_range s valid)
    | inl ordered ↦ elim (Bool-cases (eq_ℤ min max)) [
      | inl same ↦
          rw (ordered, same)
            (serialize_degenerate-Obeys checked dest min max s valid (leb→le _ _ ordered))
      | inr range ↦
          let fewest =
            range-IsFewest checked 128 (omega arith) min max lo hi (leb→le _ _ ordered) range in
          rw (ordered, range)
            (Obeys-attempt (Below (bits_required128 0 (span 128 min max))) (Between min max) dest 0
              s _ _
              (serialize_offset128-Obeys (bits_required128 0 (span 128 min max)) s valid
                fewest.some_bits fewest.at_most)
              λ n s1 _ v1 fresh.
                decode_offset-Obeys checked 128 (omega arith) min max lo hi (leb→le _ _ ordered)
                  dest n s1 v1 fresh)
    ]
  ]
