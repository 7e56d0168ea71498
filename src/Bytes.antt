-- ===== src/Bytes.antt =====
-- Byte slices as lists of numbers below 256, read as little endian numbers: what the language's
-- `from_le_bytes`, `to_le_bytes` and `copy_from_slice` do for the bit packer.
use serialize_rs.Base.{
  ℕ, zero, suc, ◌+◌, ◌*◌, ◌/◌, ◌%◌, ◌^◌, ◌≤◌, ◌<◌, ◌≡◌, refl, sym, ap, ap₂, ◌∙◌, arith, Option,
  none, some, List, [], ◌∷◌, ◌++◌, length, take, drop, length-append, length-take, length-drop,
  take-append, leb, if◌then◌else◌, le→leb, pow_pos, pow-add, field_div, mod-mul, field_lt,
  append_assoc,
}
use native.Mathlib.Nat.{div-div-eq-div-mul, zero-mod, zero-div}

abbrev pub IsBytes : List ℕ → Type 0
IsBytes [] = Unit
IsBytes (b ∷ bs) = (b < 256) × IsBytes bs

-- `from_le_bytes`, at every length.
unfoldable pub le_value : List ℕ → ℕ
le_value [] = 0
le_value (b ∷ bs) = b + 256 * le_value bs

-- The `n` bytes of `x.to_le_bytes()`.
pub to_le_bytes : ℕ → ℕ → List ℕ
to_le_bytes zero x = []
to_le_bytes (suc n) x = (x % 256) ∷ to_le_bytes n (x / 256)

-- `data[start..start + src.len()].copy_from_slice(src)`; `none` is the slice bounds panic.
pub copy_from_slice : List ℕ → ℕ → List ℕ → Option (List ℕ)
copy_from_slice bytes start src =
    if leb (start + length src) (length bytes)
    then some (take start bytes ++ (src ++ drop (start + length src) bytes))
    else none

pub length-to_le_bytes : (n x : ℕ) → length (to_le_bytes n x) ≡ n
unfolding to_le_bytes
length-to_le_bytes zero x = refl
length-to_le_bytes (suc n) x = ap suc (length-to_le_bytes n (x / 256))

pub to_le_bytes-IsBytes : (n x : ℕ) → IsBytes (to_le_bytes n x)
unfolding to_le_bytes
to_le_bytes-IsBytes zero x = tt
to_le_bytes-IsBytes (suc n) x = (omega arith, to_le_bytes-IsBytes n (x / 256))

-- 8 * (n + 1) bits are the 8 of the first byte and those of the others.
pow_byte : (n : ℕ) → 2 ^ (8 * suc n) ≡ 256 * 2 ^ (8 * n)
pow_byte n =
    let e : 8 * suc n ≡ 8 + 8 * n = omega arith in ap (λ (t : ℕ). 2 ^ t) e ∙ pow-add 8 (8 * n)

pub le_value-to_le_bytes : (n x : ℕ) → le_value (to_le_bytes n x) ≡ x % 2 ^ (8 * n)
unfolding le_value to_le_bytes
le_value-to_le_bytes zero x = omega arith
le_value-to_le_bytes (suc n) x = omega (
  arith,
  le_value-to_le_bytes n (x / 256),
  mod-mul x 256 (2 ^ (8 * n)) (omega arith) (pow_pos (8 * n)),
  ap (λ (t : ℕ). x % t) (pow_byte n),
)

pub le_value-append :
    (xs ys : List ℕ) → le_value (xs ++ ys) ≡ le_value xs + 2 ^ (8 * length xs) * le_value ys
unfolding le_value
le_value-append [] ys = omega arith
le_value-append (x ∷ xs) ys =
    omega (arith, le_value-append xs ys, ap (λ (t : ℕ). t * le_value ys) (pow_byte (length xs)))

pub le_value-lt : (xs : List ℕ) → IsBytes xs → le_value xs < 2 ^ (8 * length xs)
unfolding le_value
le_value-lt [] h = omega arith
le_value-lt (x ∷ xs) (hx, h) = omega (
  arith,
  pow_byte (length xs),
  field_lt 256 (2 ^ (8 * length xs)) x (le_value xs) hx (le_value-lt xs h),
)

pub le_value-take :
    (n : ℕ) (xs : List ℕ) → IsBytes xs → le_value (take n xs) ≡ le_value xs % 2 ^ (8 * n)
unfolding le_value
le_value-take zero xs h = omega arith
le_value-take (suc n) [] h = sym (zero-mod (2 ^ (8 * suc n)))
le_value-take (suc n) (x ∷ xs) (hx, h) = omega (
  arith,
  le_value-take n xs h,
  mod-mul (x + 256 * le_value xs) 256 (2 ^ (8 * n)) (omega arith) (pow_pos (8 * n)),
  field_div 256 x (le_value xs) hx,
  ap (λ (t : ℕ). t % 2 ^ (8 * n)) (field_div 256 x (le_value xs) hx),
  ap (λ (t : ℕ). (x + 256 * le_value xs) % t) (pow_byte n),
)

pub le_value-drop :
    (n : ℕ) (xs : List ℕ) → IsBytes xs → le_value (drop n xs) ≡ le_value xs / 2 ^ (8 * n)
unfolding le_value
le_value-drop zero xs h = omega arith
le_value-drop (suc n) [] h = sym (zero-div (2 ^ (8 * suc n)))
le_value-drop (suc n) (x ∷ xs) (hx, h) =
    le_value-drop n xs h
    ∙ ap (λ (t : ℕ). t / 2 ^ (8 * n)) (sym (field_div 256 x (le_value xs) hx))
    ∙ div-div-eq-div-mul (x + 256 * le_value xs) 256 (2 ^ (8 * n))
    ∙ ap (λ (t : ℕ). (x + 256 * le_value xs) / t) (sym (pow_byte n))

pub IsBytes-append : (xs ys : List ℕ) → IsBytes xs → IsBytes ys → IsBytes (xs ++ ys)
IsBytes-append [] ys p q = q
IsBytes-append (x ∷ xs) ys (hx, p) q = (hx, IsBytes-append xs ys p q)

pub IsBytes-take : (n : ℕ) (xs : List ℕ) → IsBytes xs → IsBytes (take n xs)
IsBytes-take zero xs h = tt
IsBytes-take (suc n) [] h = tt
IsBytes-take (suc n) (x ∷ xs) (hx, h) = (hx, IsBytes-take n xs h)

pub IsBytes-drop : (n : ℕ) (xs : List ℕ) → IsBytes xs → IsBytes (drop n xs)
IsBytes-drop zero xs h = h
IsBytes-drop (suc n) [] h = tt
IsBytes-drop (suc n) (x ∷ xs) (hx, h) = IsBytes-drop n xs h

-- A copy inside the bounds: what it returns, its length and its bytes up to the end of the copy.
pub copy_in_bounds :
    (bytes : List ℕ) (start : ℕ) (src : List ℕ)
    → start + length src ≤ length bytes
    → (out : List ℕ) × (copy_from_slice bytes start src ≡ some out)
      × (length out ≡ length bytes)
      × (take (start + length src) out ≡ take start bytes ++ src)
      × (IsBytes bytes → IsBytes src → IsBytes out)
unfolding copy_from_slice
copy_in_bounds bytes start src h = (
  take start bytes ++ (src ++ drop (start + length src) bytes),
  ground (arith, le→leb (start + length src) (length bytes) h),
  omega (
    arith,
    length-append (take start bytes) (src ++ drop (start + length src) bytes),
    length-append src (drop (start + length src) bytes),
    length-take start bytes,
    length-drop (start + length src) bytes,
  ),
  ap (take (start + length src)) (sym (append_assoc (take start bytes) src _))
      ∙ take-append (start + length src) (take start bytes ++ src) _
          (omega (arith, length-append (take start bytes) src, length-take start bytes)),
  λ hb hs.
      IsBytes-append (take start bytes) _ (IsBytes-take start bytes hb)
        (IsBytes-append src _ hs (IsBytes-drop _ bytes hb)),
)

-- Bytes are determined by how many they are and the number that they spell.
pub le_value-injective :
    (xs ys : List ℕ)
    → IsBytes xs
    → IsBytes ys
    → length xs ≡ length ys
    → le_value xs ≡ le_value ys
    → xs ≡ ys
unfolding le_value
le_value-injective [] [] _ _ _ _ = refl
le_value-injective [] (y ∷ ys) _ _ h _ = absurd (omega arith)
le_value-injective (x ∷ xs) [] _ _ h _ = absurd (omega arith)
le_value-injective (x ∷ xs) (y ∷ ys) (bx, bxs) (by, bys) h e =
    ap₂ ◌∷◌ (omega arith) (le_value-injective xs ys bxs bys (omega arith) (omega arith))
