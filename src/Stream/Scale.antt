-- ===== src/Stream/Scale.antt =====
-- About the raw bounds of a fixed point field: whole units shifted into raw units, with two's
-- complement for negative ones.
use serialize_rs.Base.{
  ℕ, suc, ◌+◌, ◌-◌, ◌*◌, ◌%◌, ◌^◌, ◌≤◌, ◌<◌, ◌≡◌, ap, sym, ◌∙◌, arith, true, false, ltb, pow_pos,
  pow-add, field_mod, inl, inr, Bool-cases,
}
use native.Mathlib.Nat.{mod-eq_of_lt, mul-add, mul-le-mul_left, pow-suc}
use serialize_rs.Base.Int.{
  ℤ, pos, negsuc, pos_part, neg_part, ◌≤ℤ◌, IsSigned, to_word, of_word, sub_ℤ,
}
use serialize_rs.Stream.Fixed.{raw_min, raw_range}

-- `z` whole units in raw units.
abbrev pub scale : ℕ → ℤ → ℤ
scale fraction_bits (pos n) = pos (2 ^ fraction_bits * n)
scale fraction_bits (negsuc n) = negsuc (2 ^ fraction_bits * suc n - 1)

pub scale_parts :
    (f : ℕ) (z : ℤ)
    → (pos_part (scale f z) ≡ 2 ^ f * pos_part z) × (neg_part (scale f z) ≡ 2 ^ f * neg_part z)
scale_parts f (pos n) = omega arith
scale_parts f (negsuc n) = omega (arith, pow_pos f, product)
  where
    product : 1 ≤ 2 ^ f * suc n
    product = grind (arith, pow_pos f)

pub scale-le : (f : ℕ) (min max : ℤ) → min ≤ℤ max → scale f min ≤ℤ scale f max
scale-le f min max ordered = omega (
  arith,
  scale_parts f min,
  scale_parts f max,
  mul-add (2 ^ f) (pos_part min) (neg_part max),
  mul-add (2 ^ f) (pos_part max) (neg_part min),
  mul-le-mul_left (2 ^ f) ordered,
)

pub scale-lt :
    (f : ℕ) (min max : ℤ)
    → pos_part min + neg_part max + 1 ≤ pos_part max + neg_part min
    → pos_part (scale f min) + neg_part (scale f max)
      < pos_part (scale f max) + neg_part (scale f min)
scale-lt f min max apart = omega (
  arith,
  pow_pos f,
  scale_parts f min,
  scale_parts f max,
  mul-add (2 ^ f) (pos_part min) (neg_part max),
  mul-add (2 ^ f) (pos_part min + neg_part max) 1,
  mul-add (2 ^ f) (pos_part max) (neg_part min),
  mul-le-mul_left (2 ^ f) apart,
)

amount : (f : ℕ) → f < 128 → 2 ^ (f % 128) ≡ 2 ^ f
amount f small = ap (λ (k : ℕ). 2 ^ k) (mod-eq_of_lt small)

pub raw_min_lem :
    (f : ℕ) (z : ℤ)
    → f < 128
    → 2 ^ f * pos_part z < 2 ^ 128
    → 2 ^ f * neg_part z ≤ 2 ^ 128
    → raw_min f z ≡ to_word 128 (scale f z)
raw_min_lem f (pos n) small p q =
    ap (λ (k : ℕ). 2 ^ (f % 128) * k % 2 ^ 128) (mod-eq_of_lt few)
    ∙ ap (λ (k : ℕ). k * n % 2 ^ 128) (amount f small)
  where
    few : n < 2 ^ 128
    few = grind (arith, p, pow_pos f)
raw_min_lem f (negsuc n) small p q =
    ap (λ (k : ℕ). k * (2 ^ 128 - 1 - n % 2 ^ 128) % 2 ^ 128) (amount f small)
    ∙ ap (λ (k : ℕ). 2 ^ f * k % 2 ^ 128) below
    ∙ ap (λ (k : ℕ). k % 2 ^ 128) (omega (arith, sum, q, pow_pos f))
    ∙ field_mod (2 ^ 128) (2 ^ 128 - 2 ^ f * suc n) (2 ^ f - 1) (omega (arith, some))
    ∙ omega (arith, some, q)
  where
    few : n < 2 ^ 128
    few = grind (arith, q, pow_pos f)

    below : 2 ^ 128 - 1 - n % 2 ^ 128 ≡ 2 ^ 128 - suc n
    below = omega (arith, few)

    some : 1 ≤ 2 ^ f * suc n
    some = grind (arith, pow_pos f)

    sum : 2 ^ f * (2 ^ 128 - suc n) + 2 ^ f * suc n ≡ 2 ^ f * 2 ^ 128
    sum =
        sym (mul-add (2 ^ f) (2 ^ 128 - suc n) (suc n))
        ∙ ap (λ (k : ℕ). 2 ^ f * k) (omega (arith, few))

-- The distance of the scaled bounds is the scaled distance.
pub raw_range_lem :
    (f : ℕ) (min max : ℤ)
    → f < 128
    → min ≤ℤ max
    → 2 ^ f * pos_part max + 2 ^ f * neg_part min
      < 2 ^ 128 + 2 ^ f * pos_part min + 2 ^ f * neg_part max
    → raw_range f min max + 2 ^ f * pos_part min + 2 ^ f * neg_part max
      ≡ 2 ^ f * pos_part max + 2 ^ f * neg_part min
raw_range_lem f min max small ordered fits =
    omega (arith, product, ap (λ (z : ℤ). raw_min f z) exact, shifted)
  where
    distance : ℕ
    distance = pos_part max + neg_part min - (neg_part max + pos_part min)

    exact : sub_ℤ max min ≡ pos distance
    exact = ground arith

    product :
        2 ^ f * distance + (2 ^ f * neg_part max + 2 ^ f * pos_part min)
        ≡ 2 ^ f * pos_part max + 2 ^ f * neg_part min
    product =
        ap (λ (k : ℕ). 2 ^ f * distance + k) (sym (mul-add (2 ^ f) (neg_part max) (pos_part min)))
        ∙ sym (mul-add (2 ^ f) distance (neg_part max + pos_part min))
        ∙ ap (λ (k : ℕ). 2 ^ f * k) (omega (arith, ordered))
        ∙ mul-add (2 ^ f) (pos_part max) (neg_part min)

    word : 2 ^ f * distance < 2 ^ 128
    word = omega (arith, product, fits)

    shifted : raw_min f (pos distance) ≡ 2 ^ f * distance
    shifted = raw_min_lem f (pos distance) small word (omega arith) ∙ mod-eq_of_lt word

-- A value that fits the storage is what its two's complement in 128 bits is cast to.
pub narrow_signed :
    (w x : ℕ)
    → 1 ≤ w
    → w ≤ 128
    → x < 2 ^ 128
    → IsSigned w (of_word 128 x)
    → of_word w (x % 2 ^ w) ≡ of_word 128 x
narrow_signed w x some_bits most word fits = elim (Bool-cases (ltb x (2 ^ 127))) [
  | inl low ↦ rw low (ground (arith, low, fits, half, mod-eq_of_lt (inside low)))
  | inr high ↦ rw high (ground (arith, high, fits, half, folded high, pow_pos (w - 1)))
]
  where
    half : 2 ^ w ≡ 2 * 2 ^ (w - 1)
    half =
        let e : w ≡ suc (w - 1) = omega arith in
        omega (arith, ap (λ (t : ℕ). 2 ^ t) e, pow-suc 2 (w - 1))

    inside : ltb x (2 ^ 127) ≡ true → x < 2 ^ w
    inside low = ground (arith, low, fits, half)

    width : 128 ≡ w + (128 - w)
    width = omega arith

    whole : 2 ^ w * (2 ^ (128 - w) - 1) + 2 ^ w * 1 ≡ 2 ^ 128
    whole =
        sym (mul-add (2 ^ w) (2 ^ (128 - w) - 1) 1)
        ∙ ap (λ (k : ℕ). 2 ^ w * k) (omega (arith, pow_pos (128 - w)))
        ∙ sym (pow-add w (128 - w))
        ∙ ap (λ (t : ℕ). 2 ^ t) (sym width)

    below : ltb x (2 ^ 127) ≡ false → 2 ^ 128 - x ≤ 2 ^ (w - 1)
    below high = ground (arith, high, fits)

    folded : ltb x (2 ^ 127) ≡ false → x % 2 ^ w ≡ 2 ^ w - (2 ^ 128 - x)
    folded high =
        ap (λ (k : ℕ). k % 2 ^ w) split
        ∙ field_mod (2 ^ w) (2 ^ w - (2 ^ 128 - x)) (2 ^ (128 - w) - 1)
            (omega (arith, word, pow_pos w, below high, half))
      where
        split : x ≡ 2 ^ w - (2 ^ 128 - x) + 2 ^ w * (2 ^ (128 - w) - 1)
        split = omega (arith, whole, below high, half, word)
