-- ===== src/ReadStream/RelativeDecode.antt =====
-- About `serialize_int_relative` of src/stream.rs on a `ReadStream` that stands before its code.
use serialize_rs.Base.{
  ℕ, ◌+◌, ◌-◌, ◌*◌, ◌^◌, ◌≤◌, ◌<◌, ◌≡◌, refl, ap, ◌∙◌, arith, Bool, true, false, List, [], ◌∷◌, leb,
  ◌==◌, inl, inr, Bool-cases, le→leb,
}
use serialize_rs.Base.Int.{ℤ, pos, leb_ℤ, add_ℤ, sub_ℤ, span}
use serialize_rs.Outcome.{ok}
use serialize_rs.Stream.Code.{ranged_bits}
use serialize_rs.Stream.Relative.{
  int_relative_in_domain, Bucket, buckets, accept_int_relative, absolute_tier, bucket_tier,
  bucket_tiers, serialize_int_relative,
}
use serialize_rs.Stream.RelativeCode.{
  tier_bits, tier_code, relative_bits, relative_code, IsLadder, buckets-IsLadder,
}
use serialize_rs.ReadStream.{ReadStream, read_stream}
use serialize_rs.ReadStream.Sees.{
  Sees, past, past-past, Sees-as, Sees-low, Sees-high, serialize_bits-Sees,
}
use serialize_rs.ReadStream.Decode.{serialize_int-Sees, serialize_bool-Sees}
use serialize_rs.ReadStream.Relative.{narrow_lem}

module _ (checked : Bool) (p m : ℕ) (above : p < m) (small : m < 2 ^ 31) (dest : ℤ) where
  in_domain : int_relative_in_domain (pos p) (pos m) ≡ true
  in_domain = ground arith

  is_far : 69914 < m - p → leb_ℤ (sub_ℤ (pos m) (pos p)) (pos 69914) ≡ false
  is_far far = ground arith

  added : add_ℤ (pos p) (pos (m - p)) ≡ pos m
  added = ground arith

  accept_lem :
      (s : ReadStream)
      → accept_int_relative (read_stream checked) (pos p) (pos m) dest s ≡ ok (pos m) s
  unfolding accept_int_relative
  accept_lem s = ground (arith, narrow_lem (pos m) (omega arith) (omega arith))

  absolute_tier-Sees :
      {s : ReadStream}
      → 69914 < m - p
      → Sees s m 32
      → absolute_tier (read_stream checked) (pos p) dest s ≡ ok (pos m) (past s 32)
  unfolding absolute_tier
  absolute_tier-Sees {s} far seen =
      rw (serialize_bits-Sees checked 0 m 32 (omega arith) (omega arith) seen)
        (ground (arith, narrow_lem (pos m) (omega arith) (omega arith), in_domain, is_far far))

  bucket_tier-Sees :
      (threshold lo hi : ℕ) {s : ReadStream}
      → lo ≤ m - p
      → m - p ≤ hi
      → hi < 2 ^ 31
      → Sees s (span 32 (pos lo) (pos (m - p))) (ranged_bits 32 (pos lo) (pos hi))
      → bucket_tier (read_stream checked) (pos p) 0 (threshold, lo, hi) dest s
        ≡ ok (pos m) (past s (ranged_bits 32 (pos lo) (pos hi)))
  unfolding bucket_tier
  bucket_tier-Sees threshold lo hi {s} over under fits seen =
      rw
        (serialize_int-Sees checked (pos 0) (pos lo) (pos (m - p)) (pos hi) (omega arith)
          (omega arith) (omega arith) (omega arith) (omega arith) seen)
        (ap
            (λ (z : ℤ).
              accept_int_relative (read_stream checked) (pos p) z dest
                (past s (ranged_bits 32 (pos lo) (pos hi))))
            added
          ∙ accept_lem (past s (ranged_bits 32 (pos lo) (pos hi))))

  bucket_tiers-Sees :
      (floor : ℕ) (tiers : List Bucket) {s : ReadStream}
      → IsLadder floor tiers
      → floor ≤ m - p
      → Sees s (tier_code tiers (m - p) m) (tier_bits tiers (m - p))
      → bucket_tiers (read_stream checked) (pos p) 0 dest tiers s
        ≡ ok (pos m) (past s (tier_bits tiers (m - p)))
  unfolding bucket_tiers
  bucket_tiers-Sees floor [] ladder over seen = absolute_tier-Sees (omega arith) seen
  bucket_tiers-Sees floor ((threshold, lo, hi) ∷ rest) {s} (at, top, wide, fits, ladder) over seen =
      elim (Bool-cases (leb (m - p) threshold)) [
        | inl inside ↦
            let width = ranged_bits 32 (pos lo) (pos hi) in
            let both =
              Sees-as (1 + 2 ^ 1 * span 32 (pos lo) (pos (m - p))) (1 + width) (rw inside refl)
                (rw inside refl) seen in
            let flag = Sees-low 1 width 1 (span 32 (pos lo) (pos (m - p))) (omega arith) both in
            let value = Sees-high 1 width 1 (span 32 (pos lo) (pos (m - p))) (omega arith) both in
            rw
              (
                serialize_bool-Sees checked false true flag,
                bucket_tier-Sees threshold lo hi (omega arith) (ground (arith, inside)) fits value,
                inside,
              )
              (past-past (pos m) s 1 width)
        | inr outside ↦
            let both =
              Sees-as (0 + 2 ^ 1 * tier_code rest (m - p) m) (1 + tier_bits rest (m - p))
                (rw outside (omega arith)) (rw outside refl) seen in
            let flag =
              Sees-low 1 (tier_bits rest (m - p)) 0 (tier_code rest (m - p) m) (omega arith) both in
            let value =
              Sees-high 1 (tier_bits rest (m - p)) 0 (tier_code rest (m - p) m) (omega arith)
                both in
            rw
              (
                serialize_bool-Sees checked false false flag,
                bucket_tiers-Sees (threshold + 1) rest ladder (ground (arith, outside)) value,
                outside,
              )
              (past-past (pos m) s 1 (tier_bits rest (m - p)))
      ]

  pub serialize_int_relative-Sees :
      {s : ReadStream}
      → Sees s (relative_code p m) (relative_bits p m)
      → serialize_int_relative (read_stream checked) (pos p) dest s
        ≡ ok (pos m) (past s (relative_bits p m))
  unfolding serialize_int_relative
  serialize_int_relative-Sees {s} seen = elim (Bool-cases (m - p == 1)) [
    | inl next ↦
        let flag = Sees-as 1 1 (rw next refl) (rw next refl) seen in
        rw
          (
            le→leb 0 (p + 0) (omega arith),
            serialize_bool-Sees checked false true flag,
            next,
            accept_next next (past s 1),
          )
          refl
    | inr apart ↦
        let rest = tier_bits buckets (m - p) in
        let code = tier_code buckets (m - p) m in
        let both =
          Sees-as (0 + 2 ^ 1 * code) (1 + rest) (rw apart (omega arith)) (rw apart refl) seen in
        let flag = Sees-low 1 rest 0 code (omega arith) both in
        let value = Sees-high 1 rest 0 code (omega arith) both in
        rw
          (
            le→leb 0 (p + 0) (omega arith),
            serialize_bool-Sees checked false false flag,
            bucket_tiers-Sees 2 buckets buckets-IsLadder (ground (arith, apart)) value,
            apart,
          )
          (past-past (pos m) s 1 rest)
  ]
    where
      accept_next :
          (m - p == 1) ≡ true
          → (s1 : ReadStream)
          → accept_int_relative (read_stream checked) (pos p) (add_ℤ (pos p) (pos 1)) dest s1
            ≡ ok (pos m) s1
      accept_next next s1 =
          ap (λ (z : ℤ). accept_int_relative (read_stream checked) (pos p) z dest s1)
            (ap (λ (d : ℕ). add_ℤ (pos p) (pos d)) (ground (arith, next)) ∙ added)
          ∙ accept_lem s1
