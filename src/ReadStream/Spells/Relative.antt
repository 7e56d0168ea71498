-- ===== src/ReadStream/Spells/Relative.antt =====
-- About `serialize_int_relative` of src/stream.rs on a `ReadStream`: what an accepted read has
-- consumed. The tier that is read is the one that a writer takes.
use serialize_rs.Base.{
  ℕ, ◌+◌, ◌-◌, ◌^◌, ◌≤◌, ◌<◌, ◌≡◌, refl, ap, arith, Bool, true, false, List, [], ◌∷◌, ◌==◌,
  if◌then◌else◌, inl, inr, Bool-cases, le→leb, lt→leb,
}
use serialize_rs.Base.Int.{ℤ, pos, negsuc, pos_part, ◌≤ℤ◌, leb_ℤ, IsSigned, add_ℤ, sub_ℤ, span}
use serialize_rs.Error.{value_out_of_range, non_canonical}
use serialize_rs.BitReader.Valid.{IsValid}
use serialize_rs.Stream.Code.{ranged_bits}
use serialize_rs.Stream.Relative.{
  int_relative_in_domain, Bucket, buckets, accept_int_relative, absolute_tier, bucket_tier,
  bucket_tiers, serialize_int_relative,
}
use serialize_rs.Stream.RelativeCode.{
  tier_bits, tier_code, relative_bits, relative_code, IsLadder, buckets-IsLadder,
}
use serialize_rs.ReadStream.{ReadStream, read_stream}
use serialize_rs.ReadStream.Relative.{narrow_lem}
use serialize_rs.ReadStream.Spells.{
  Spells, Spells-as, Spells-then, Spells-valid, Yields, Yields-weaken, Yields-attempt,
  Yields-refused,
}
use serialize_rs.ReadStream.Spells.Basic.{Raw, serialize_bits-Yields}
use serialize_rs.ReadStream.Spells.Raw.{serialize_bool-Yields}
use serialize_rs.ReadStream.Spells.Ranged.{Coded, serialize_int-Yields}

module _ (checked : Bool) (p : ℕ) (small : p < 2 ^ 31) (dest : ℤ) where
  -- A value above `p` in the domain, and where it lies past.
  abbrev pub Tier : List Bucket → ℕ → ReadStream → ℤ → ReadStream → Type 0
  Tier tiers floor s v t =
      (pos 0 ≤ℤ v)
      × (p < pos_part v)
      × (v ≤ℤ pos 2147483647)
      × (floor ≤ pos_part v - p)
      × Spells s (tier_code tiers (pos_part v - p) (pos_part v)) (tier_bits tiers (pos_part v - p))
          t

  -- An accepted sum is the value.
  accept-Yields :
      (Q : ℤ → ReadStream → Type 0) (m : ℕ) (t : ReadStream)
      → (p < m → m < 2 ^ 31 → Q (pos m) t)
      → Yields Q (accept_int_relative (read_stream checked) (pos p) (pos m) dest t)
  unfolding accept_int_relative
  accept-Yields Q m t holds = elim (Bool-cases (int_relative_in_domain (pos p) (pos m))) [
    | inr outside ↦ rw outside (Yields-refused Q dest value_out_of_range t)
    | inl inside ↦
        rw (inside, narrow_lem (pos m) (omega arith) (ground (arith, inside)))
          (holds (ground (arith, inside)) (ground (arith, inside)))
  ]

  absolute_tier-Yields :
      (s : ReadStream)
      → IsValid s.reader
      → Yields (Tier [] 69915 s) (absolute_tier (read_stream checked) (pos p) dest s)
  unfolding absolute_tier
  absolute_tier-Yields s valid =
      Yields-attempt (Raw 32 32 s) (Tier [] 69915 s) dest _ _
        (serialize_bits-Yields checked s valid 0 32 (omega arith))
        λ m t (_, _, _, read). elim (Bool-cases (int_relative_in_domain (pos p) (pos m))) [
          | inr outside ↦ rw outside (Yields-refused (Tier [] 69915 s) dest value_out_of_range t)
          | inl inside ↦ elim (Bool-cases (leb_ℤ (sub_ℤ (pos m) (pos p)) (pos 69914))) [
            | inl near ↦ rw (inside, near) (Yields-refused (Tier [] 69915 s) dest non_canonical t)
            | inr far ↦
                rw (inside, far, narrow_lem (pos m) (omega arith) (ground (arith, inside)))
                  (
                    omega arith,
                    ground (arith, inside),
                    ground (arith, inside),
                    ground (arith, inside, far),
                    read,
                  )
          ]
        ]

  -- A value in a bucket.
  abbrev Bucketed : ℕ → Bucket → ReadStream → ℤ → ReadStream → Type 0
  Bucketed floor (threshold, lo, hi) s v t =
      (pos 0 ≤ℤ v)
      × (p < pos_part v)
      × (v ≤ℤ pos 2147483647)
      × (floor ≤ pos_part v - p)
      × (pos_part v - p ≤ threshold)
      × Spells s (span 32 (pos lo) (pos (pos_part v - p))) (ranged_bits 32 (pos lo) (pos hi)) t

  bucket_sum-Yields :
      (floor threshold lo hi : ℕ) (s t : ReadStream) (d : ℤ)
      → lo ≡ floor
      → hi ≡ threshold
      → Coded 32 (pos lo) (pos hi) s d t
      → Yields
          (Bucketed floor (threshold, lo, hi) s)
          (accept_int_relative (read_stream checked) (pos p) (add_ℤ (pos p) d) dest t)
  bucket_sum-Yields floor threshold lo hi s t (negsuc n) at top ((_, _, _, over, _), _) =
      absurd (omega arith)
  bucket_sum-Yields floor threshold lo hi s t (pos n) at top ((_, _, _, over, under), read) =
      rw sum (
        accept-Yields (Bucketed floor (threshold, lo, hi) s) (p + n) t λ above below. (
          omega arith,
          above,
          omega arith,
          omega arith,
          omega arith,
          Spells-as read (ap (λ (k : ℕ). span 32 (pos lo) (pos k)) gap) refl,
        ))
    where
      sum : add_ℤ (pos p) (pos n) ≡ pos (p + n)
      sum = ground arith

      gap : n ≡ p + n - p
      gap = omega arith

  bucket_tier-Yields :
      (floor threshold lo hi : ℕ) (s : ReadStream)
      → IsValid s.reader
      → lo ≡ floor
      → hi ≡ threshold
      → lo < hi
      → hi < 2 ^ 31
      → Yields
          (Bucketed floor (threshold, lo, hi) s)
          (bucket_tier (read_stream checked) (pos p) 0 (threshold, lo, hi) dest s)
  unfolding bucket_tier
  bucket_tier-Yields floor threshold lo hi s valid at top wide fits =
      Yields-attempt (Coded 32 (pos lo) (pos hi) s) (Bucketed floor (threshold, lo, hi) s) dest _ _
        (serialize_int-Yields checked (pos 0) (pos lo) (pos hi) s valid (omega arith) (omega arith))
        λ d t coded. bucket_sum-Yields floor threshold lo hi s t d at top coded

  -- Behind a flag that is set, and behind one that is not.
  inside-Tier :
      (floor : ℕ) (bucket : Bucket) (rest : List Bucket) {s s1 : ReadStream} (v : ℤ)
      (t : ReadStream)
      → Spells s 1 1 s1
      → Bucketed floor bucket s1 v t
      → Tier (bucket ∷ rest) floor s v t
  inside-Tier floor (threshold, lo, hi) rest v t flag (a, b, c, over, under, read) =
      (a, b, c, over, rw (le→leb (pos_part v - p) threshold under) (Spells-then flag read))

  outside-Tier :
      (floor : ℕ) (threshold lo hi : ℕ) (rest : List Bucket) {s s1 : ReadStream} (v : ℤ)
      (t : ReadStream)
      → floor ≤ threshold
      → Spells s 0 1 s1
      → Tier rest (threshold + 1) s1 v t
      → Tier ((threshold, lo, hi) ∷ rest) floor s v t
  outside-Tier floor threshold lo hi rest v t low flag (a, b, c, over, read) = (
    a,
    b,
    c,
    omega arith,
    rw (lt→leb (pos_part v - p) threshold (omega arith))
        (Spells-as (Spells-then flag read) (omega arith) refl),
  )

  bucket_tiers-Yields :
      (floor : ℕ) (tiers : List Bucket) (s : ReadStream)
      → IsValid s.reader
      → IsLadder floor tiers
      → Yields (Tier tiers floor s) (bucket_tiers (read_stream checked) (pos p) 0 dest tiers s)
  unfolding bucket_tiers
  bucket_tiers-Yields floor [] s valid ladder = rw ladder (absolute_tier-Yields s valid)
  bucket_tiers-Yields floor ((threshold, lo, hi) ∷ rest) s valid (at, top, wide, fits, ladder) =
      Yields-attempt (λ v t. Spells s (if v then 1 else 0) 1 t)
        (Tier ((threshold, lo, hi) ∷ rest) floor s) dest _ _
        (serialize_bool-Yields checked s valid _)
        λ in_bucket s1 flag.
          elim in_bucket
              as (λ b.
                Spells s (if b then 1 else 0) 1 s1
                → Yields (Tier ((threshold, lo, hi) ∷ rest) floor s) (elim b [
                  | true ↦ bucket_tier (read_stream checked) (pos p) 0 (threshold, lo, hi) dest s1
                  | false ↦ bucket_tiers (read_stream checked) (pos p) 0 dest rest s1
                ])) [
                  | true ↦ λ set.
                      Yields-weaken (Bucketed floor (threshold, lo, hi) s1)
                        (Tier ((threshold, lo, hi) ∷ rest) floor s) _
                        (λ v t found. inside-Tier floor (threshold, lo, hi) rest v t set found)
                        (bucket_tier-Yields floor threshold lo hi s1 (Spells-valid set) at top wide
                          fits)
                  | false ↦ λ clear.
                      Yields-weaken (Tier rest (threshold + 1) s1)
                        (Tier ((threshold, lo, hi) ∷ rest) floor s) _
                        (λ v t found.
                          outside-Tier floor threshold lo hi rest v t (omega arith) clear found)
                        (bucket_tiers-Yields (threshold + 1) rest s1 (Spells-valid clear) ladder)
                ]
            flag

-- The value, and the code that a writer gives it.
abbrev pub Relative : ℤ → ReadStream → ℤ → ReadStream → Type 0
Relative previous s v t =
    (pos 0 ≤ℤ previous)
    × (pos 0 ≤ℤ v)
    × (pos_part previous < pos_part v)
    × (v ≤ℤ pos 2147483647)
    × Spells s (relative_code (pos_part previous) (pos_part v))
        (relative_bits (pos_part previous) (pos_part v)) t

one_more :
    (p : ℕ) {s t : ReadStream}
    → p + 1 < 2 ^ 31
    → Spells s 1 1 t
    → Relative (pos p) s (pos (p + 1)) t
one_more p small flag = (omega arith, omega arith, omega arith, omega arith, rw next flag)
  where
    next : (p + 1 - p == 1) ≡ true
    next = ground arith

further :
    (p : ℕ) {s s1 : ReadStream} (v : ℤ) (t : ReadStream) (checked : Bool) (small : p < 2 ^ 31)
    (dest : ℤ)
    → Spells s 0 1 s1
    → Tier checked p small dest buckets 2 s1 v t
    → Relative (pos p) s v t
further p v t checked small dest flag (a, b, c, over, read) =
    (omega arith, a, b, c, rw apart (Spells-as (Spells-then flag read) (omega arith) refl))
  where
    apart : (pos_part v - p == 1) ≡ false
    apart = ground arith

module _ (checked : Bool) (dest : ℤ) (s : ReadStream) (valid : IsValid s.reader) where
  natural-Yields :
      (p : ℕ)
      → p < 2 ^ 31
      → Yields (Relative (pos p) s) (serialize_int_relative (read_stream checked) (pos p) dest s)
  unfolding serialize_int_relative
  natural-Yields p small = rw (le→leb 0 (p + 0) (omega arith)) (
      Yields-attempt (λ v t. Spells s (if v then 1 else 0) 1 t) (Relative (pos p) s) dest _ _
        (serialize_bool-Yields checked s valid _)
        λ one_bit s1 flag.
          elim one_bit
              as (λ b.
                Spells s (if b then 1 else 0) 1 s1
                → Yields (Relative (pos p) s) (elim b [
                  | true ↦
                      accept_int_relative (read_stream checked) (pos p) (add_ℤ (pos p) (pos 1)) dest
                        s1
                  | false ↦ bucket_tiers (read_stream checked) (pos p) 0 dest buckets s1
                ])) [
                  | true ↦ λ set. rw sum (
                      accept-Yields checked p small dest (Relative (pos p) s) (p + 1) s1
                        λ _ below. one_more p below set)
                  | false ↦ λ clear.
                      Yields-weaken (Tier checked p small dest buckets 2 s1) (Relative (pos p) s) _
                        (λ v t found. further p v t checked small dest clear found)
                        (bucket_tiers-Yields checked p small dest 2 buckets s1 (Spells-valid clear)
                          buckets-IsLadder)
                ]
            flag)
    where
      sum : add_ℤ (pos p) (pos 1) ≡ pos (p + 1)
      sum = ground arith

  pub serialize_int_relative-Yields :
      (previous : ℤ)
      → IsSigned 32 previous
      → Yields (Relative previous s) (serialize_int_relative (read_stream checked) previous dest s)
  unfolding serialize_int_relative
  serialize_int_relative-Yields (pos p) fits = natural-Yields p (omega arith)
  serialize_int_relative-Yields (negsuc p) fits =
      rw outside (Yields-refused (Relative (negsuc p) s) dest value_out_of_range s)
    where
      outside : leb_ℤ (pos 0) (negsuc p) ≡ false
      outside = ground arith
