-- ===== src/Bits.antt =====
-- A number as the string of its bits, the lowest first.
use serialize_rs.Base.{
  ℕ, zero, suc, ◌+◌, ◌*◌, ◌/◌, ◌%◌, ◌^◌, ◌<◌, ◌≡◌, refl, ap, ap₂, ◌∙◌, arith, Bool, false, List, [],
  ◌∷◌, ◌++◌, replicate, length, ◌==◌,
}
use native.Mathlib.Nat.{pow-suc, mul_assoc}
use serialize_rs.Bytes.{IsBytes, le_value}

unfoldable pub digits : ℕ → ℕ → List Bool
digits zero code = []
digits (suc bits) code = (code % 2 == 1) ∷ digits bits (code / 2)

-- The bits of bytes, the first byte's first.
abbrev pub digits_of_bytes : List ℕ → List Bool
digits_of_bytes [] = []
digits_of_bytes (b ∷ bs) = digits 8 b ++ digits_of_bytes bs

pub length-digits : (bits code : ℕ) → length (digits bits code) ≡ bits
unfolding digits
length-digits zero code = refl
length-digits (suc bits) code = omega (arith, length-digits bits (code / 2))

pub digits-zero : (bits : ℕ) → digits bits 0 ≡ replicate bits false
unfolding digits
digits-zero zero = refl
digits-zero (suc bits) = ap (λ xs. false ∷ xs) (digits-zero bits)

pub digits-append :
    (m n a b : ℕ) → a < 2 ^ m → digits (m + n) (a + 2 ^ m * b) ≡ digits m a ++ digits n b
unfolding digits
digits-append zero n a b h = ap₂ digits (omega arith) (omega arith)
digits-append (suc m) n a b h =
    ap (λ (k : ℕ). digits k (a + 2 ^ suc m * b)) longer
    ∙ ap₂ (λ (x : Bool) (xs : List Bool). x ∷ xs) (ap (λ (k : ℕ). k == 1) lowest)
        (ap (digits (m + n)) half ∙ digits-append m n (a / 2) b (omega (arith, power)))
  where
    longer : suc m + n ≡ suc (m + n)
    longer = omega arith

    power : 2 ^ suc m ≡ 2 * 2 ^ m
    power = omega (arith, pow-suc 2 m)

    doubled : 2 ^ suc m * b ≡ 2 * (2 ^ m * b)
    doubled = omega (arith, ap (λ (k : ℕ). k * b) power, mul_assoc 2 (2 ^ m) b)

    half : (a + 2 ^ suc m * b) / 2 ≡ a / 2 + 2 ^ m * b
    half = omega (arith, doubled)

    lowest : (a + 2 ^ suc m * b) % 2 ≡ a % 2
    lowest = omega (arith, doubled)

pub digits-le_value :
    (bytes : List ℕ)
    → IsBytes bytes
    → digits (8 * length bytes) (le_value bytes) ≡ digits_of_bytes bytes
unfolding le_value digits
digits-le_value [] h = refl
digits-le_value (b ∷ bs) (small, h) =
    ap (λ (n : ℕ). digits n (b + 256 * le_value bs)) longer
    ∙ digits-append 8 (8 * length bs) b (le_value bs) (omega arith)
    ∙ ap (λ xs. digits 8 b ++ xs) (digits-le_value bs h)
  where
    longer : 8 * length (b ∷ bs) ≡ 8 + 8 * length bs
    longer = omega arith
