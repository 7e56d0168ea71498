-- ===== src/Stream/RelativeCode.antt =====
-- What an integer relative to another is on the wire: a bit for each tier that the distance does
-- not fit, a bit for the one that it does, and what that tier carries.
use serialize_rs.Base.{
  ℕ, ◌+◌, ◌-◌, ◌*◌, ◌^◌, ◌≤◌, ◌<◌, ◌≡◌, arith, List, [], ◌∷◌, leb, ◌==◌, if◌then◌else◌, pow-add,
  inl, inr, Bool-cases,
}
use serialize_rs.Base.Int.{pos, span}
use serialize_rs.Stream.Code.{ranged_bits, Ranged-lt}
use serialize_rs.Stream.Relative.{Bucket, buckets}

abbrev pub tier_bits : List Bucket → ℕ → ℕ
tier_bits [] distance = 32
tier_bits ((threshold, lo, hi) ∷ rest) distance =
    let next = tier_bits rest distance in
    if leb distance threshold then 1 + ranged_bits 32 (pos lo) (pos hi) else 1 + next

abbrev pub tier_code : List Bucket → ℕ → ℕ → ℕ
tier_code [] distance current = current
tier_code ((threshold, lo, hi) ∷ rest) distance current =
    let next = tier_code rest distance current in
    if leb distance threshold then 1 + 2 * span 32 (pos lo) (pos distance) else 2 * next

-- Of `current`, above `previous`.
abbrev pub relative_bits : ℕ → ℕ → ℕ
relative_bits previous current =
    if current - previous == 1 then 1 else 1 + tier_bits buckets (current - previous)

abbrev pub relative_code : ℕ → ℕ → ℕ
relative_code previous current =
    if current - previous == 1 then 1 else 2 * tier_code buckets (current - previous) current

-- Each tier takes the distances from the last threshold on, up to its own.
abbrev pub IsLadder : ℕ → List Bucket → Type 0
IsLadder floor [] = floor ≡ 69915
IsLadder floor ((threshold, lo, hi) ∷ rest) =
    (lo ≡ floor) × (hi ≡ threshold) × (lo < hi) × (hi < 2 ^ 31) × IsLadder (threshold + 1) rest

pub buckets-IsLadder : IsLadder 2 buckets
buckets-IsLadder = ground arith

-- One bit, then a number of `bits` bits.
set-lt : (code bits : ℕ) → code < 2 ^ bits → 1 + 2 * code < 2 ^ (1 + bits)
set-lt code bits h = omega (arith, pow-add 1 bits)

clear-lt : (code bits : ℕ) → code < 2 ^ bits → 2 * code < 2 ^ (1 + bits)
clear-lt code bits h = omega (arith, pow-add 1 bits)

tier_code-lt :
    (floor distance current : ℕ) (tiers : List Bucket)
    → IsLadder floor tiers
    → floor ≤ distance
    → distance < 2 ^ 31
    → current < 2 ^ 32
    → tier_code tiers distance current < 2 ^ tier_bits tiers distance
tier_code-lt floor distance current [] ladder over near small = small
tier_code-lt floor distance current ((threshold, lo, hi) ∷ rest) (at, top, wide, fits, ladder) over
      near small =
    elim (Bool-cases (leb distance threshold)) [
      | inl inside ↦ rw inside (
          set-lt (span 32 (pos lo) (pos distance)) (ranged_bits 32 (pos lo) (pos hi))
            (Ranged-lt 32 (omega arith) (pos lo) (pos distance) (pos hi) (ground (arith, inside))))
      | inr outside ↦ rw outside (
          clear-lt (tier_code rest distance current) (tier_bits rest distance) (
            tier_code-lt (threshold + 1) distance current rest ladder (ground (arith, outside)) near
              small))
    ]

-- The code fits in its bits.
pub relative_code-lt : (p m : ℕ) → p < m → m < 2 ^ 31 → relative_code p m < 2 ^ relative_bits p m
relative_code-lt p m above small = elim (Bool-cases (m - p == 1)) [
  | inl next ↦ rw next (omega arith)
  | inr apart ↦ rw apart (
      clear-lt (tier_code buckets (m - p) m) (tier_bits buckets (m - p)) (
        tier_code-lt 2 (m - p) m buckets buckets-IsLadder (ground (arith, apart)) (omega arith)
          (omega arith)))
]
