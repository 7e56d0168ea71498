-- ===== src/Stream/Format/Unsigned.antt =====
-- The raw bounds of a fixed point field of unsigned storage.
use serialize_rs.Base.{
  ℕ, ◌+◌, ◌*◌, ◌%◌, ◌^◌, ◌≤◌, ◌<◌, ◌≡◌, ap, sym, ◌∙◌, arith, true, false, ltb, leb, ◌||◌, inl, inr,
  Bool-cases, shl, sub_word, add_word, pow_pos, pow-add, pow_mono, field_lt,
}
use mathlib.Core.Path.{subst}
use native.Mathlib.Nat.{mod-eq_of_lt, mul-le-mul_left}
use serialize_rs.Base.Int.{ℤ, pos, negsuc, to_word}
use serialize_rs.Stream.Fixed.{from_unsigned, raw_min, raw_range}
use serialize_rs.Stream.Scale.{raw_min_lem, raw_range_lem}
use serialize_rs.Stream.Format.{IsFixed, IsDecoded}

module _ (w i f : ℕ) (some_bits : 1 ≤ i) (whole : i + f ≡ w) (most : w ≤ 128) where
  word_bits : 2 ^ w ≡ 2 ^ f * 2 ^ i
  word_bits = ap (λ (k : ℕ). 2 ^ k) (omega (arith, whole)) ∙ pow-add f i

  units-lt :
      (b : ℕ) → b < 2 ^ 63 → leb 64 i || ltb (to_word 64 (pos b)) (shl 64 1 i) ≡ true → b < 2 ^ i
  units-lt b word fit = elim (Bool-cases (leb 64 i)) [
    | inl large ↦ omega (arith, word, pow_mono {b = i} (wide large))
    | inr small ↦
        ground
          (arith, small, fit, mod-eq_of_lt (doubled word), amount small, mod-eq_of_lt (power small))
  ]
    where
      wide : leb 64 i ≡ true → 63 ≤ i
      wide large = ground (arith, large)

      doubled : b < 2 ^ 63 → b < 2 ^ 64
      doubled word = omega arith

      amount : leb 64 i ≡ false → 2 ^ (i % 64) ≡ 2 ^ i
      amount small = ap (λ (k : ℕ). 2 ^ k) (mod-eq_of_lt (ground (arith, small)))

      few : leb 64 i ≡ false → i ≤ 63
      few small = ground (arith, small)

      power : leb 64 i ≡ false → 2 ^ i < 2 ^ 64
      power small = omega (arith, pow_mono {b = 63} (few small))

  module _ (a b : ℕ) (word : b < 2 ^ 63)
      (fit : leb 64 i || ltb (to_word 64 (pos b)) (shl 64 1 i) ≡ true) (ordered : a ≤ b) where
    top-lt : 2 ^ f * b < 2 ^ w
    top-lt =
        omega (arith, word_bits, field_lt (2 ^ f) (2 ^ i) 0 b (pow_pos f) (units-lt b word fit))

    bottom-le : 2 ^ f * a ≤ 2 ^ f * b
    bottom-le = mul-le-mul_left (2 ^ f) ordered

    word-le : 2 ^ w ≤ 2 ^ 128
    word-le = pow_mono {b = 128} most

    bottom : raw_min f (pos a) ≡ 2 ^ f * a
    bottom =
        raw_min_lem f (pos a) (omega (arith, whole)) (omega (arith, bottom-le, top-lt, word-le))
          (omega arith)
        ∙ mod-eq_of_lt (omega (arith, bottom-le, top-lt, word-le))

    pub range : raw_range f (pos a) (pos b) + 2 ^ f * a ≡ 2 ^ f * b
    range = omega (
      arith,
      raw_range_lem f (pos a) (pos b) (omega (arith, whole)) (omega arith)
          (omega (arith, bottom-le, top-lt, word-le)),
    )

    pub unsigned-IsDecoded :
        (n : ℕ)
        → n ≤ raw_range f (pos a) (pos b)
        → IsDecoded
            (record { bits = w; signed = false })
            f
            (pos a)
            (pos b)
            (add_word 128 (raw_min f (pos a)) n)
            (from_unsigned
              (record { bits = w; signed = false })
              (add_word 128 (raw_min f (pos a)) n))
    unsigned-IsDecoded n inside =
        subst
          (IsDecoded (record { bits = w; signed = false }) f (pos a) (pos b)
            (add_word 128 (raw_min f (pos a)) n))
          (sym (ap pos exact))
          (
            ((omega arith, omega (arith, sum, top-lt)), omega arith, omega (arith, sum)),
            ap (λ (k : ℕ). (k + n) % 2 ^ 128) (sym bottom),
          )
      where
        sum : 2 ^ f * a + n ≤ 2 ^ f * b
        sum = omega (arith, range, inside)

        exact : add_word 128 (raw_min f (pos a)) n % 2 ^ w ≡ 2 ^ f * a + n
        exact =
            ap (λ (k : ℕ). (k + n) % 2 ^ 128 % 2 ^ w) bottom
            ∙ ap (λ (k : ℕ). k % 2 ^ w) (mod-eq_of_lt (omega (arith, sum, top-lt, word-le)))
            ∙ mod-eq_of_lt (omega (arith, sum, top-lt))

    -- The code of a value between the bounds.
    pub unsigned_code-le :
        (v : ℤ)
        → IsFixed (record { bits = w; signed = false }) f (pos a) (pos b) v
        → sub_word 128 (to_word 128 v) (raw_min f (pos a)) ≤ raw_range f (pos a) (pos b)
    unsigned_code-le (negsuc k) ((natural, _), _, _) = absurd (omega arith)
    unsigned_code-le (pos k) ((_, small), above, below) =
        omega (
          arith,
          range,
          top-lt,
          word-le,
          ap (λ (x : ℕ). sub_word 128 (k % 2 ^ 128) x) bottom,
          plain,
        )
      where
        plain : k % 2 ^ 128 ≡ k
        plain = mod-eq_of_lt (omega (arith, small, word-le))
