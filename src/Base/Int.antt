-- ===== src/Base/Int.antt =====
-- Signed integers over the native numbers, and their two's complement words of `w` bits.
use Prim.Native.Nat.{ℕ, suc, ◌+◌, ◌-◌, ◌%◌, ◌^◌, ◌≤◌, ◌<◌}
use mathlib.Core.Path.{◌≡◌, ap}
use mathlib.Core.Bool.{Bool}
use native.Mathlib.Nat.{pow-suc, mod-eq_of_lt, mod-eq-sub-mod, mod-lt}
use native.Mathlib.Omega.{arith}
use serialize_rs.Base.Tests.{ltb, leb, ◌==◌, if◌then◌else◌}
use serialize_rs.Base.Pow.{pow_pos}
use serialize_rs.Base.Words.{add_word, sub_word}

-- `negsuc n` is -(n + 1).
pub data ℤ : Type 0 where
  pos : ℕ → ℤ
  negsuc : ℕ → ℤ

abbrev pub pos_part : ℤ → ℕ
pos_part (pos n) = n
pos_part (negsuc n) = 0

abbrev pub neg_part : ℤ → ℕ
neg_part (pos n) = 0
neg_part (negsuc n) = suc n

infix 50 ◌≤ℤ◌
abbrev pub ◌≤ℤ◌ : ℤ → ℤ → Type 0
a ≤ℤ b = pos_part a + neg_part b ≤ pos_part b + neg_part a

abbrev pub leb_ℤ : ℤ → ℤ → Bool
leb_ℤ a b = leb (pos_part a + neg_part b) (pos_part b + neg_part a)

abbrev pub eq_ℤ : ℤ → ℤ → Bool
eq_ℤ a b = (pos_part a + neg_part b) == (pos_part b + neg_part a)

-- The integers of `i32` at `w = 32`, and so on.
abbrev pub IsSigned : ℕ → ℤ → Type 0
IsSigned w z = (pos_part z < 2 ^ (w - 1)) × (neg_part z ≤ 2 ^ (w - 1))

-- `z as u32`.
abbrev pub to_word : ℕ → ℤ → ℕ
to_word w (pos n) = n % 2 ^ w
to_word w (negsuc n) = 2 ^ w - 1 - n % 2 ^ w

-- `x as i32`.
abbrev pub of_word : ℕ → ℕ → ℤ
of_word w x = if ltb x (2 ^ (w - 1)) then pos x else negsuc (2 ^ w - 1 - x)

-- `(b as u32).wrapping_sub(a as u32)`.
abbrev pub span : ℕ → ℤ → ℤ → ℕ
span w a b = sub_word w (to_word w b) (to_word w a)

mod_small : (n m : ℕ) → n < m → n % m ≡ n
mod_small n m h = mod-eq_of_lt h

mod_less : (n m : ℕ) → m ≤ n → n % m ≡ (n - m) % m
mod_less n m h = mod-eq-sub-mod h

module _ (w : ℕ) (wide : 1 ≤ w) where
  halves : 2 ^ w ≡ 2 ^ (w - 1) + 2 ^ (w - 1)
  halves =
      let e : w ≡ suc (w - 1) = omega arith in
      omega (arith, ap (λ (t : ℕ). 2 ^ t) e, pow-suc 2 (w - 1))

  pub to_word-lt : (z : ℤ) → to_word w z < 2 ^ w
  to_word-lt (pos n) = omega (arith, pow_pos w)
  to_word-lt (negsuc n) = omega (arith, pow_pos w)

  -- On integers that fit the casts are exact.
  pub to_word_lem :
      (z : ℤ)
      → IsSigned w z
      → to_word w z + neg_part z ≡ pos_part z + (if leb (neg_part z) 0 then 0 else 2 ^ w)
  to_word_lem (pos n) h = ground (arith, halves, mod_small (n) (2 ^ w))
  to_word_lem (negsuc n) h = ground (arith, halves, mod_small (n) (2 ^ w))

  pub of_word-to_word : (z : ℤ) → IsSigned w z → of_word w (to_word w z) ≡ z
  of_word-to_word (pos n) h = ground (arith, halves, mod_small (n) (2 ^ w))
  of_word-to_word (negsuc n) h = ground (arith, halves, mod_small (n) (2 ^ w))

  -- One wrap at most.
  wrap_once : (x : ℕ) → x < 2 ^ w + 2 ^ w → x % 2 ^ w ≡ (if ltb x (2 ^ w) then x else x - 2 ^ w)
  wrap_once x h =
      ground (arith, mod_small (x) (2 ^ w), mod_less (x) (2 ^ w), mod_small (x - 2 ^ w) (2 ^ w))

  -- `b - a` in the unsigned domain is the distance of integers that fit.
  pub span_lem :
      (a b : ℤ)
      → IsSigned w a
      → IsSigned w b
      → a ≤ℤ b
      → span w a b + pos_part a + neg_part b ≡ pos_part b + neg_part a
  span_lem (pos m) (pos n) ha hb h = ground (
    arith,
    halves,
    mod_small m (2 ^ w),
    mod_small n (2 ^ w),
    wrap_once (n % 2 ^ w + 2 ^ w - m % 2 ^ w),
  )
  span_lem (pos m) (negsuc n) ha hb h = absurd (omega arith)
  span_lem (negsuc m) (pos n) ha hb h = ground (
    arith,
    halves,
    mod_small m (2 ^ w),
    mod_small n (2 ^ w),
    wrap_once (n % 2 ^ w + 2 ^ w - (2 ^ w - 1 - m % 2 ^ w)),
  )
  span_lem (negsuc m) (negsuc n) ha hb h = ground (
    arith,
    halves,
    mod_small m (2 ^ w),
    mod_small n (2 ^ w),
    wrap_once (2 ^ w - 1 - n % 2 ^ w + 2 ^ w - (2 ^ w - 1 - m % 2 ^ w)),
  )

  -- Adding a distance that stays in the range is addition.
  pub add_word_lem :
      (a : ℤ) (d : ℕ)
      → IsSigned w a
      → pos_part a + d < 2 ^ (w - 1) + neg_part a
      → let c = of_word w (add_word w d (to_word w a)) in
        IsSigned w c × (pos_part c + neg_part a ≡ pos_part a + d + neg_part c)
  add_word_lem (pos n) d ha h =
      ground (arith, halves, mod_small n (2 ^ w), wrap_once (d + n % 2 ^ w))
  add_word_lem (negsuc n) d ha h =
      ground (arith, halves, mod_small n (2 ^ w), wrap_once (d + (2 ^ w - 1 - n % 2 ^ w)))

  pub span-lt : (a b : ℤ) → span w a b < 2 ^ w
  span-lt a b = mod-lt _ (pow_pos w)

-- Exact sums and differences: the source takes them in a width that cannot wrap.
abbrev pub difference : ℕ → ℕ → ℤ
difference p n = if leb n p then pos (p - n) else negsuc (n - p - 1)

abbrev pub add_ℤ : ℤ → ℤ → ℤ
add_ℤ a b = difference (pos_part a + pos_part b) (neg_part a + neg_part b)

abbrev pub sub_ℤ : ℤ → ℤ → ℤ
sub_ℤ a b = difference (pos_part a + neg_part b) (neg_part a + pos_part b)
