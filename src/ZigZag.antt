-- ===== src/ZigZag.antt =====
-- src/lib.rs: `signed_to_unsigned` and `unsigned_to_signed`.
use serialize_rs.Base.{
  ℕ, ◌+◌, ◌-◌, ◌*◌, ◌/◌, ◌%◌, ◌^◌, ◌<◌, ◌≡◌, ap, ap₂, sym, ◌∙◌, arith, ltb, inl, inr, Bool-cases,
  shl, shr, sub_word, bit_and, bit_and_mask, bit_xor, bit_xor-zero, bit_xor-ones,
}
use mathlib.Core.Path.{subst}
use serialize_rs.Base.Int.{ℤ, pos, negsuc, IsSigned, to_word, of_word}

unfoldable pub signed_to_unsigned : ℤ → ℕ
signed_to_unsigned n =
    bit_xor 32 (shl 32 (to_word 32 n) 1) (sub_word 32 0 (shr 32 (to_word 32 n) 31))

unfoldable pub unsigned_to_signed : ℕ → ℤ
unsigned_to_signed n = of_word 32 (bit_xor 32 (shr 32 n 1) (sub_word 32 0 (bit_and n 1)))

-- 0, -1, 1, -2, 2 and so on, in that order.
abbrev pub zig_zag : ℤ → ℕ
zig_zag (pos n) = 2 * n
zig_zag (negsuc n) = 2 * n + 1

signed_to_unsigned-zig_zag : (z : ℤ) → IsSigned 32 z → signed_to_unsigned z ≡ zig_zag z
unfolding signed_to_unsigned
signed_to_unsigned-zig_zag (pos n) fits =
    ap₂ (λ (a b : ℕ). bit_xor 32 a b) doubled no_sign ∙ bit_xor-zero 32 (2 * n) (omega arith)
  where
    doubled : shl 32 (n % 2 ^ 32) 1 ≡ 2 * n
    doubled = omega arith

    no_sign : sub_word 32 0 (shr 32 (n % 2 ^ 32) 31) ≡ 0
    no_sign = omega arith
signed_to_unsigned-zig_zag (negsuc n) fits =
    ap₂ (λ (a b : ℕ). bit_xor 32 a b) doubled sign
    ∙ bit_xor-ones 32 (2 ^ 32 - 2 - 2 * n) (omega arith)
    ∙ omega arith
  where
    doubled : shl 32 (2 ^ 32 - 1 - n % 2 ^ 32) 1 ≡ 2 ^ 32 - 2 - 2 * n
    doubled = omega arith

    sign : sub_word 32 0 (shr 32 (2 ^ 32 - 1 - n % 2 ^ 32) 31) ≡ 2 ^ 32 - 1
    sign = omega arith

even_lem : (n : ℕ) → n < 2 ^ 31 → unsigned_to_signed (2 * n) ≡ pos n
unfolding unsigned_to_signed
even_lem n small = ap (λ (x : ℕ). of_word 32 x) plain ∙ ground arith
  where
    halved : shr 32 (2 * n) 1 ≡ n
    halved = omega arith

    no_sign : sub_word 32 0 (bit_and (2 * n) 1) ≡ 0
    no_sign = omega (arith, bit_and_mask 1 (2 * n))

    plain : bit_xor 32 (shr 32 (2 * n) 1) (sub_word 32 0 (bit_and (2 * n) 1)) ≡ n
    plain = ap₂ (λ (a b : ℕ). bit_xor 32 a b) halved no_sign ∙ bit_xor-zero 32 n (omega arith)

odd_lem : (n : ℕ) → n < 2 ^ 31 → unsigned_to_signed (2 * n + 1) ≡ negsuc n
unfolding unsigned_to_signed
odd_lem n small = ap (λ (x : ℕ). of_word 32 x) flipped ∙ ground arith
  where
    halved : shr 32 (2 * n + 1) 1 ≡ n
    halved = omega arith

    sign : sub_word 32 0 (bit_and (2 * n + 1) 1) ≡ 2 ^ 32 - 1
    sign = omega (arith, bit_and_mask 1 (2 * n + 1))

    flipped :
        bit_xor 32 (shr 32 (2 * n + 1) 1) (sub_word 32 0 (bit_and (2 * n + 1) 1)) ≡ 2 ^ 32 - 1 - n
    flipped = ap₂ (λ (a b : ℕ). bit_xor 32 a b) halved sign ∙ bit_xor-ones 32 n (omega arith)

unsigned_to_signed-zig_zag : (z : ℤ) → IsSigned 32 z → unsigned_to_signed (zig_zag z) ≡ z
unsigned_to_signed-zig_zag (pos n) fits = even_lem n (omega arith)
unsigned_to_signed-zig_zag (negsuc n) fits = odd_lem n (omega arith)

zig_zag-lt : (z : ℤ) → IsSigned 32 z → zig_zag z < 2 ^ 32
zig_zag-lt (pos n) fits = omega arith
zig_zag-lt (negsuc n) fits = omega arith

-- The integer that a word stands for.
zig_zag_onto : (u : ℕ) → u < 2 ^ 32 → (z : ℤ) × IsSigned 32 z × (zig_zag z ≡ u)
zig_zag_onto u word = elim (Bool-cases (ltb (u % 2) 1)) [
  | inl even ↦ (pos (u / 2), (omega arith, omega arith), ground (arith, even))
  | inr odd ↦ (negsuc (u / 2), (omega arith, omega arith), ground (arith, odd))
]

-- `signed_to_unsigned` and `unsigned_to_signed` are inverses between `i32` and `u32`:
-- `signed_to_unsigned` sends n to 2 * n and -(n + 1) to 2 * n + 1, which is a word of 32 bits;
-- `unsigned_to_signed` takes that back to the integer, and takes every word of 32 bits to an
-- integer of `i32` that `signed_to_unsigned` sends back to the word.
pub zig_zag_lem :
    (z : ℤ) (u : ℕ)
    → IsSigned 32 z
    → u < 2 ^ 32
    → (signed_to_unsigned z ≡ zig_zag z)
      × (signed_to_unsigned z < 2 ^ 32)
      × (unsigned_to_signed (signed_to_unsigned z) ≡ z)
      × IsSigned 32 (unsigned_to_signed u)
      × (signed_to_unsigned (unsigned_to_signed u) ≡ u)
zig_zag_lem z u fits word =
    let encodes = signed_to_unsigned-zig_zag z fits in
    let (y, inside, same) = zig_zag_onto u word in
    let decodes : unsigned_to_signed u ≡ y =
      ap unsigned_to_signed (sym same) ∙ unsigned_to_signed-zig_zag y inside in
    (
      encodes,
      subst (λ n. n < 2 ^ 32) (sym encodes) (zig_zag-lt z fits),
      ap unsigned_to_signed encodes ∙ unsigned_to_signed-zig_zag z fits,
      subst (IsSigned 32) (sym decodes) inside,
      ap signed_to_unsigned decodes ∙ signed_to_unsigned-zig_zag y inside ∙ same,
    )
