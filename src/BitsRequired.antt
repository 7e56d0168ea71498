-- ===== src/BitsRequired.antt =====
-- src/lib.rs: `bits_required`, `bits_required64` and `bits_required128`.
use serialize_rs.Base.{
  ℕ, zero, suc, ◌+◌, ◌-◌, ◌^◌, ◌≤◌, ◌<◌, ◌≡◌, ap, ◌∙◌, ◌%◌, arith, ltb, ◌==◌, if◌then◌else◌,
  sub_word,
}
use native.Mathlib.Nat.{add-mod_right, mod-eq_of_lt}

-- The standard library's `leading_zeros` of a `w`-bit word.
unfoldable pub leading_zeros : ℕ → ℕ → ℕ
leading_zeros zero x = 0
leading_zeros (suc w) x = if ltb x (2 ^ w) then suc (leading_zeros w x) else 0

unfoldable pub bits_required_word : ℕ → ℕ → ℕ → ℕ
unfolding leading_zeros
bits_required_word w min max = if min == max then 0 else w - leading_zeros w (sub_word w max min)

unfoldable pub bits_required : ℕ → ℕ → ℕ
unfolding bits_required_word
bits_required min max = bits_required_word 32 min max

unfoldable pub bits_required64 : ℕ → ℕ → ℕ
unfolding bits_required_word
bits_required64 min max = bits_required_word 64 min max

unfoldable pub bits_required128 : ℕ → ℕ → ℕ
unfolding bits_required_word
bits_required128 min max = bits_required_word 128 min max

pub leading_zeros_lem :
    (w x : ℕ)
    → 0 < x
    → x < 2 ^ w
    → (leading_zeros w x < w)
      × (x < 2 ^ (w - leading_zeros w x))
      × (2 ^ (w - leading_zeros w x - 1) ≤ x)
unfolding leading_zeros
leading_zeros_lem zero x p h = absurd (omega arith)
leading_zeros_lem (suc w) x p h = ground (arith, leading_zeros_lem w x p)

-- The fewest bits that hold `range`.
pub record IsFewest (w range bits : ℕ) : Type 0 where
  pub some_bits : 1 ≤ bits
  pub at_most : bits ≤ w
  pub enough : range < 2 ^ bits
  pub needed : 2 ^ (bits - 1) ≤ range

-- For a range from 0 to a maximum that is not 0 and fits the word, `bits_required` is at least 1
-- and at most the word's width, holds the maximum, and one bit less does not; at each width of
-- word.
pub bits_required-IsFewest :
    (w range : ℕ) → 0 < range → range < 2 ^ w → IsFewest w range (bits_required_word w 0 range)
unfolding bits_required_word
bits_required-IsFewest w range p h = ground (arith, whole, leading_zeros_lem w range p h)
  where
    untouched : range + 2 ^ w - 0 ≡ range + 2 ^ w
    untouched = omega arith

    whole : sub_word w range 0 ≡ range
    whole = ap (λ (t : ℕ). t % 2 ^ w) untouched ∙ add-mod_right range (2 ^ w) ∙ mod-eq_of_lt h

-- What `leading_zeros` leaves of the word.
pub leading_zeros-le :
    (w x : ℕ) → 0 < x → x < 2 ^ w → (1 ≤ w - leading_zeros w x) × (w - leading_zeros w x ≤ w)
leading_zeros-le w x p h = omega (arith, leading_zeros_lem w x p h)
