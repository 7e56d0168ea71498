-- ===== src/Stream/Format/Signed.antt =====
-- The raw bounds of a fixed point field of signed storage.
use serialize_rs.Base.{
  ℕ, suc, ◌+◌, ◌-◌, ◌*◌, ◌%◌, ◌^◌, ◌≤◌, ◌<◌, ◌≡◌, ap, ap₂, sym, ◌∙◌, arith, true, ◌&&◌, shl,
  sub_word, add_word, pow_pos, pow-add, pow_mono, field_lt,
}
use mathlib.Core.Path.{subst}
use native.Mathlib.Nat.{mod-lt, mul-le-mul_left}
use serialize_rs.Base.Int.{
  ℤ, pos, negsuc, pos_part, neg_part, ◌≤ℤ◌, leb_ℤ, IsSigned, to_word, of_word, add_word_lem,
  span_lem,
}
use serialize_rs.Stream.Fixed.{from_unsigned, fit_format, raw_min, raw_range}
use serialize_rs.Stream.Scale.{scale, scale_parts, raw_min_lem, raw_range_lem, narrow_signed}
use serialize_rs.Stream.Format.{IsFixed, IsDecoded}

between-IsSigned :
    (w : ℕ) (a b c : ℤ) → IsSigned w a → IsSigned w b → a ≤ℤ c → c ≤ℤ b → IsSigned w c
between-IsSigned w (pos m) (pos n) (pos k) ha hb p q = omega arith
between-IsSigned w (pos m) (pos n) (negsuc k) ha hb p q = omega arith
between-IsSigned w (pos m) (negsuc n) (pos k) ha hb p q = omega arith
between-IsSigned w (pos m) (negsuc n) (negsuc k) ha hb p q = omega arith
between-IsSigned w (negsuc m) (pos n) (pos k) ha hb p q = omega arith
between-IsSigned w (negsuc m) (pos n) (negsuc k) ha hb p q = omega arith
between-IsSigned w (negsuc m) (negsuc n) (pos k) ha hb p q = omega arith
between-IsSigned w (negsuc m) (negsuc n) (negsuc k) ha hb p q = omega arith

to_word-of_word : (x : ℕ) → x < 2 ^ 128 → to_word 128 (of_word 128 x) ≡ x
to_word-of_word x small = ground arith

module _ (w i f : ℕ) (some_bits : 1 ≤ i) (whole : i + f ≡ w) (most : w ≤ 128) where
  -- Whole units below the capacity, in raw units.
  capacity : 2 ^ (w - 1) ≡ 2 ^ f * 2 ^ (i - 1)
  capacity = ap (λ (k : ℕ). 2 ^ k) (omega (arith, whole)) ∙ pow-add f (i - 1)

  unit-lt : 2 ^ (i - 1) ≤ 2 ^ 127
  unit-lt = pow_mono {b = 127} (omega (arith, whole))

  shifted : shl 128 1 (sub_word 32 i 1) ≡ 2 ^ (i - 1)
  shifted = omega (arith, unit-lt, ap (λ (k : ℕ). 2 ^ k) amount)
    where
      amount : sub_word 32 i 1 % 128 ≡ i - 1
      amount = omega (arith, whole)

  -- Signed storage: the bounds in raw units are numbers of it.
  lowest : of_word 128 (sub_word 128 0 (2 ^ (i - 1))) ≡ negsuc (2 ^ (i - 1) - 1)
  lowest = ground (arith, unit-lt, pow_pos (i - 1))

  highest : of_word 128 (sub_word 128 (2 ^ (i - 1)) 1) ≡ pos (2 ^ (i - 1) - 1)
  highest = ground (arith, unit-lt, pow_pos (i - 1))

  units_lem :
      (min max : ℤ)
      → fit_format (record { bits = w; signed = true }) i min max ≡ true
      → (neg_part min ≤ 2 ^ (i - 1) + pos_part min) × (pos_part max < 2 ^ (i - 1) + neg_part max)
  units_lem min max fit = ground (arith, read_off, pow_pos (i - 1))
    where
      read_off : leb_ℤ (negsuc (2 ^ (i - 1) - 1)) min && leb_ℤ max (pos (2 ^ (i - 1) - 1)) ≡ true
      read_off =
          ap₂ (λ (a b : ℤ). leb_ℤ a min && leb_ℤ max b)
            (sym (ap (λ (u : ℕ). of_word 128 (sub_word 128 0 u)) shifted ∙ lowest))
            (sym (ap (λ (u : ℕ). of_word 128 (sub_word 128 u 1)) shifted ∙ highest))
          ∙ fit

  scaled-le : (n : ℕ) → n ≤ 2 ^ (i - 1) → 2 ^ f * n ≤ 2 ^ (w - 1)
  scaled-le n h = omega (arith, capacity, mul-le-mul_left (2 ^ f) h)

  scaled-lt : (n : ℕ) → n < 2 ^ (i - 1) → 2 ^ f * n < 2 ^ (w - 1)
  scaled-lt n h = omega (arith, capacity, field_lt (2 ^ f) (2 ^ (i - 1)) 0 n (pow_pos f) h)

  low-IsSigned :
      (min : ℤ)
      → neg_part min ≤ 2 ^ (i - 1) + pos_part min
      → pos_part min < 2 ^ (i - 1) + neg_part min
      → IsSigned w (scale f min)
  low-IsSigned (pos n) h k = omega (arith, scaled-lt n (omega arith))
  low-IsSigned (negsuc n) h k =
      omega (arith, scaled-le (suc n) (omega arith), pow_pos f, scale_parts f (negsuc n))

  -- Signed storage: an offset inside the range gives a value between the bounds.
  module _ (min max : ℤ) (fit : fit_format (record { bits = w; signed = true }) i min max ≡ true)
      (ordered : min ≤ℤ max) where
    bounds-IsSigned : IsSigned w (scale f min) × IsSigned w (scale f max)
    bounds-IsSigned =
        let (above, below) = units_lem min max fit in
        (low-IsSigned min above (omega arith), low-IsSigned max (omega arith) below)

    wide-IsSigned : (z : ℤ) → IsSigned w z → IsSigned 128 z
    wide-IsSigned z fits = omega (arith, bound)
      where
        bound : 2 ^ (w - 1) ≤ 2 ^ 127
        bound = pow_mono {b = 127} (omega arith)

    low_lem : raw_min f min ≡ to_word 128 (scale f min)
    low_lem =
        raw_min_lem f min (omega (arith, whole)) (omega (arith, fits, scale_parts f min))
          (omega (arith, fits, scale_parts f min))
      where
        fits : IsSigned 128 (scale f min)
        fits = wide-IsSigned (scale f min) (bounds-IsSigned.0)

    pub range_lem :
        raw_range f min max + pos_part (scale f min) + neg_part (scale f max)
        ≡ pos_part (scale f max) + neg_part (scale f min)
    range_lem = omega (
      arith,
      scale_parts f min,
      scale_parts f max,
      raw_range_lem f min max (omega (arith, whole)) ordered
          (omega (arith, low, high, scale_parts f min, scale_parts f max)),
    )
      where
        low : IsSigned 128 (scale f min)
        low = wide-IsSigned (scale f min) (bounds-IsSigned.0)

        high : IsSigned 128 (scale f max)
        high = wide-IsSigned (scale f max) (bounds-IsSigned.1)

    pub signed-IsDecoded :
        (n : ℕ)
        → n ≤ raw_range f min max
        → IsDecoded
            (record { bits = w; signed = true })
            f
            min
            max
            (add_word 128 (raw_min f min) n)
            (from_unsigned (record { bits = w; signed = true }) (add_word 128 (raw_min f min) n))
    signed-IsDecoded n inside =
        let sum : IsSigned 128 value
            × (pos_part value + neg_part low ≡ pos_part low + n + neg_part value) =
          add_word_lem 128 (omega arith) low n fits
            (omega (arith, range_lem, wide-IsSigned high (bounds-IsSigned.1))) in
        let above : low ≤ℤ value = omega (arith, sum.1) in
        let below : value ≤ℤ high = omega (arith, sum.1, range_lem) in
        let stored =
          between-IsSigned w low high value (bounds-IsSigned.0) (bounds-IsSigned.1) above below in
        subst
          (IsDecoded (record { bits = w; signed = true }) f min max
            (add_word 128 (raw_min f min) n))
          (sym (
            ap (λ (k : ℕ). of_word w (k % 2 ^ w)) same
            ∙ narrow_signed w (add_word 128 n (to_word 128 low)) (omega (arith, whole)) most
                (mod-lt _ (pow_pos 128)) stored))
          (
            (stored, above, below),
            to_word-of_word (add_word 128 n (to_word 128 low)) (mod-lt _ (pow_pos 128)) ∙ sym same,
          )
      where
        low : ℤ
        low = scale f min

        high : ℤ
        high = scale f max

        fits : IsSigned 128 low
        fits = wide-IsSigned low (bounds-IsSigned.0)

        value : ℤ
        value = of_word 128 (add_word 128 n (to_word 128 low))

        same : add_word 128 (raw_min f min) n ≡ add_word 128 n (to_word 128 low)
        same = ap (λ (k : ℕ). add_word 128 k n) low_lem ∙ ap (λ (k : ℕ). k % 2 ^ 128) (omega arith)

    -- The code of a value between the bounds.
    pub signed_code-le :
        (v : ℤ)
        → IsFixed (record { bits = w; signed = true }) f min max v
        → sub_word 128 (to_word 128 v) (raw_min f min) ≤ raw_range f min max
    signed_code-le v (stored, above, below) = omega (
      arith,
      range_lem,
      ap (λ (k : ℕ). sub_word 128 (to_word 128 v) k) low_lem,
      span_lem 128 (omega arith) (scale f min) v (wide-IsSigned (scale f min) (bounds-IsSigned.0))
          (wide-IsSigned v stored) above,
    )
