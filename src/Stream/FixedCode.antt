-- ===== src/Stream/FixedCode.antt =====
-- What a fixed point field is on the wire: the distance from the lower bound in raw units, in the
-- fewest bits that hold the range.
use serialize_rs.Base.{
  ℕ, zero, suc, lt→ltb, ◌+◌, ◌-◌, ◌^◌, ◌≤◌, ◌<◌, ◌≡◌, refl, ap, sym, ◌∙◌, arith, true, false, inl,
  inr, Bool-cases, add_word, sub_word, pow_pos,
}
use native.Mathlib.Nat.{mod-lt}
use serialize_rs.Base.Int.{ℤ, ◌≤ℤ◌, eq_ℤ, sub_ℤ, IsSigned, to_word, to_word-lt, pos}
use serialize_rs.BitsRequired.{leading_zeros, leading_zeros_lem}
use serialize_rs.Stream.Fixed.{FixedPointStorage, from_unsigned, fit_format, raw_min, raw_range}
use serialize_rs.Stream.Format.{IsFixed}
use serialize_rs.Stream.Format.Codes.{
  from_unsigned-IsDecoded, raw_range-pos, code-le, from_unsigned-to_word,
}

abbrev pub fixed_bits : ℕ → ℤ → ℤ → ℕ
fixed_bits fraction_bits min max = 128 - leading_zeros 128 (raw_range fraction_bits min max)

abbrev pub fixed_code : ℕ → ℤ → ℤ → ℕ
fixed_code fraction_bits min v = sub_word 128 (to_word 128 v) (raw_min fraction_bits min)

-- A declaration that can be right.
abbrev pub IsFormat : FixedPointStorage → ℕ → ℕ → ℤ → ℤ → Type 0
IsFormat t i f min max =
    (t.bits ≤ 128)
    × (1 ≤ i)
    × (i + f ≡ t.bits)
    × IsSigned 64 min
    × IsSigned 64 max
    × (min ≤ℤ max)
    × (fit_format t i min max ≡ true)

no_zeros : (w : ℕ) → leading_zeros w 0 ≡ w
unfolding leading_zeros
no_zeros zero = refl
no_zeros (suc w) = rw (lt→ltb 0 (2 ^ w) (pow_pos w)) (ap suc (no_zeros w))

module _ (t : FixedPointStorage) (i f : ℕ) (min max : ℤ) (format : IsFormat t i f min max) where
  -- No range, no bits.
  pub fixed_bits-none : eq_ℤ min max ≡ true → (raw_range f min max ≡ 0) × (fixed_bits f min max ≡ 0)
  fixed_bits-none same =
      (none_left, omega (arith, no_zeros 128, ap (λ (k : ℕ). leading_zeros 128 k) none_left))
    where
      nothing : sub_ℤ max min ≡ pos 0
      nothing = ground (arith, same)

      none_left : raw_range f min max ≡ 0
      none_left = ap (λ (z : ℤ). raw_min f z) nothing ∙ omega arith

  pub fixed_bits-fewest :
      eq_ℤ min max ≡ false
      → (1 ≤ fixed_bits f min max)
        × (fixed_bits f min max ≤ 128)
        × (raw_range f min max < 2 ^ fixed_bits f min max)
  fixed_bits-fewest apart =
      let (most, some_bits, whole, lo, hi, ordered, fit) = format in
      let (few, fits, _) =
        leading_zeros_lem 128 (raw_range f min max)
          (raw_range-pos t.bits i f some_bits whole most t.signed min max lo hi fit ordered apart)
          (mod-lt _ (pow_pos 128)) in
      (omega (arith, few), omega arith, fits)

  pub fixed_code-le : (v : ℤ) → IsFixed t f min max v → fixed_code f min v ≤ raw_range f min max
  fixed_code-le v fixed =
      let (most, some_bits, whole, lo, hi, ordered, fit) = format in
      code-le t.bits i f some_bits whole most t.signed min max lo hi fit ordered v fixed

  pub fixed_code-lt :
      (v : ℤ) → IsFixed t f min max v → fixed_code f min v < 2 ^ fixed_bits f min max
  fixed_code-lt v fixed = elim (Bool-cases (eq_ℤ min max)) [
    | inl same ↦
        omega
          (arith, fixed_code-le v fixed, (fixed_bits-none same).0, pow_pos (fixed_bits f min max))
    | inr apart ↦ omega (arith, fixed_code-le v fixed, fixed_bits-fewest apart)
  ]

  -- The code gives the value back.
  pub value_lem :
      (v : ℤ)
      → IsFixed t f min max v
      → from_unsigned t (add_word 128 (raw_min f min) (fixed_code f min v)) ≡ v
  value_lem v fixed =
      let (most, some_bits, whole, lo, hi, ordered, fit) = format in
      ap (from_unsigned t) (
        back (raw_min f min) (to_word 128 v) (mod-lt _ (pow_pos 128))
          (to_word-lt 128 (omega arith) v))
      ∙ from_unsigned-to_word t.bits i f some_bits whole most t.signed v (fixed.0)
    where
      back : (low x : ℕ) → low < 2 ^ 128 → x < 2 ^ 128 → add_word 128 low (sub_word 128 x low) ≡ x
      back low x p q = omega arith

  -- An offset in the range is the code of its value.
  pub offset_lem :
      (n : ℕ)
      → n ≤ raw_range f min max
      → let v = from_unsigned t (add_word 128 (raw_min f min) n) in
        IsFixed t f min max v × (fixed_code f min v ≡ n)
  offset_lem n inside =
      let (most, some_bits, whole, lo, hi, ordered, fit) = format in
      let (fixed, word) =
        from_unsigned-IsDecoded t.bits i f some_bits whole most t.signed min max lo hi fit ordered n
          inside in
      (
        fixed,
        ap (λ (x : ℕ). sub_word 128 x (raw_min f min)) word
            ∙ back (raw_min f min) n (mod-lt _ (pow_pos 128)) (omega (arith, inside, bound)),
      )
    where
      bound : raw_range f min max < 2 ^ 128
      bound = mod-lt _ (pow_pos 128)

      back : (low x : ℕ) → low < 2 ^ 128 → x < 2 ^ 128 → sub_word 128 (add_word 128 low x) low ≡ x
      back low x p q = omega arith

  -- The only value of a range that is degenerate.
  pub only_fixed :
      eq_ℤ min max ≡ true
      → (v : ℤ) → IsFixed t f min max v
      → (to_word 128 v ≡ raw_min f min) × (from_unsigned t (raw_min f min) ≡ v)
  only_fixed same v fixed =
      let (most, some_bits, whole, lo, hi, ordered, fit) = format in
      (
        word,
        ap (from_unsigned t) (sym word)
            ∙ from_unsigned-to_word t.bits i f some_bits whole most t.signed v (fixed.0),
      )
    where
      equal : (low x : ℕ) → low < 2 ^ 128 → x < 2 ^ 128 → sub_word 128 x low ≤ 0 → x ≡ low
      equal low x p q h = omega arith

      word : to_word 128 v ≡ raw_min f min
      word =
          equal (raw_min f min) (to_word 128 v) (mod-lt _ (pow_pos 128))
            (to_word-lt 128 (omega arith) v)
            (omega (arith, fixed_code-le v fixed, (fixed_bits-none same).0))
