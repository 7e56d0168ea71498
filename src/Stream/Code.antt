-- ===== src/Stream/Code.antt =====
-- What a ranged integer is on the wire: its distance from the lower bound, in the fewest bits
-- that hold the range.
use serialize_rs.Base.{
  ℕ, ◌^◌, ◌≤◌, inl, inr, Bool-cases, ◌<◌, ◌≡◌, arith, true, false, ltb, ap, ◌%◌, shl, lt→ltb,
  pow_mono,
}
use native.Mathlib.Nat.{mod-eq_of_lt}
use serialize_rs.Base.Int.{ℤ, ◌≤ℤ◌, eq_ℤ, IsSigned, span, span_lem, span-lt}
use serialize_rs.BitsRequired.{bits_required_word, IsFewest, bits_required-IsFewest}

-- The width of a ranged integer, and its code.
abbrev pub ranged_bits : ℕ → ℤ → ℤ → ℕ
ranged_bits w min max = bits_required_word w 0 (span w min max)

module _ (w : ℕ) (wide : 1 ≤ w) (min v max : ℤ) (fits_min : IsSigned w min) (fits_v : IsSigned w v)
    (fits_max : IsSigned w max) (lo : min ≤ℤ v) (hi : v ≤ℤ max) where
  pub code-le-range : span w min v ≤ span w min max
  code-le-range = omega (
    arith,
    span_lem w wide min v fits_min fits_v lo,
    span_lem w wide min max fits_min fits_max (omega arith),
  )

  pub ranged-IsFewest : eq_ℤ min max ≡ false → IsFewest w (span w min max) (ranged_bits w min max)
  ranged-IsFewest h =
      bits_required-IsFewest w (span w min max)
        (ground (arith, span_lem w wide min max fits_min fits_max (omega arith)))
        (span-lt w wide min max)

  -- Nothing rides for a degenerate range.
  pub degenerate_code : eq_ℤ min max ≡ true → (span w min v ≡ 0) × (ranged_bits w min max ≡ 0)
  degenerate_code h =
      (omega (arith, code-le-range, none_left), unfold bits_required_word in rw none_left)
    where
      none_left : span w min max ≡ 0
      none_left = ground (arith, span_lem w wide min max fits_min fits_max (omega arith))

-- What a writer owes: a declaration that can be right, and a value in it.
abbrev pub Ranged : ℕ → ℤ → ℤ → ℤ → Type 0
Ranged w min v max = IsSigned w min × IsSigned w v × IsSigned w max × (min ≤ℤ v) × (v ≤ℤ max)

pub Ranged-lt :
    (w : ℕ)
    → 1 ≤ w
    → (min v max : ℤ) → Ranged w min v max
    → span w min v < 2 ^ ranged_bits w min max
Ranged-lt w wide min v max (a, b, c, lo, hi) = elim (Bool-cases (eq_ℤ min max)) [
  | inl same ↦
      let (no_code, no_bits) = degenerate_code w wide min v max a b c lo hi same in
      omega (arith, no_code, ap (λ (t : ℕ). 2 ^ t) no_bits)
  | inr range ↦
      let fewest = ranged-IsFewest w wide min v max a b c lo hi range in
      omega (arith, fewest.enough, code-le-range w wide min v max a b c lo hi)
]

-- The debug assertion of `serialize_bits64` holds of a value that fits its field.
pub in_range : (value bits : ℕ) → bits ≤ 64 → value < 2 ^ bits → ltb value (shl 128 1 bits) ≡ true
in_range value bits h small = lt→ltb _ _ (omega (arith, small, fits, ap (λ (t : ℕ). 2 ^ t) amount))
  where
    fits : 2 ^ bits % 2 ^ 128 ≡ 2 ^ bits
    fits = mod-eq_of_lt (omega (arith, pow_mono {b = 64} h))

    amount : bits % 128 ≡ bits
    amount = omega arith
