-- ===== src/Base/Pow.antt =====
-- Powers of two, and division and remainder by them at variable exponents. A number below
-- `A * B` is a low part below `A` and a high part below `B`; `field_*` takes it apart.
use Prim.Native.Nat.{ℕ, zero, suc, ◌+◌, ◌-◌, ◌*◌, ◌/◌, ◌%◌, ◌^◌, ◌≤◌, ◌<◌}
use mathlib.Core.Path.{◌≡◌, sym, ap, ◌∙◌}
use native.Mathlib.Nat.{
  pow-suc, one-le-pow, pow-le-pow_right, div-add-mod, mod-lt, div-div-eq-div-mul, add-mul-div_left,
  add-mul-mod_self_left, div-eq_of_lt, mod-eq_of_lt, add-zero,
}
use native.Mathlib.Omega.{arith}

pub pow_pos : (k : ℕ) → 0 < 2 ^ k
pow_pos k = one-le-pow k 2 (omega arith)

pub pow_mono : {a b : ℕ} → a ≤ b → 2 ^ a ≤ 2 ^ b
pow_mono h = pow-le-pow_right (omega arith) h

pub pow-add : (a b : ℕ) → 2 ^ (a + b) ≡ 2 ^ a * 2 ^ b
pow-add a zero = omega (arith, ap (λ (t : ℕ). 2 ^ t) (add-zero a))
pow-add a (suc b) =
    let e : a + suc b ≡ suc (a + b) = omega arith in
    omega (
      arith,
      ap (λ (t : ℕ). 2 ^ t) e,
      pow-suc 2 (a + b),
      pow-add a b,
      pow-suc 2 b,
      ap (λ (t : ℕ). 2 ^ a * t) (pow-suc 2 b),
    )

pub pow-split : (a b : ℕ) → a ≤ b → 2 ^ b ≡ 2 ^ a * 2 ^ (b - a)
pow-split a b h =
    let e : b ≡ a + (b - a) = omega arith in ap (λ (t : ℕ). 2 ^ t) e ∙ pow-add a (b - a)

pub field_lt : (A B r c : ℕ) → r < A → c < B → r + A * c < A * B
field_lt A B r c p q = grind arith

pub field_div : (A r c : ℕ) → r < A → (r + A * c) / A ≡ c
field_div A r c h = omega (arith, add-mul-div_left r c {y = A} (omega arith), div-eq_of_lt h)

pub field_mod : (A r c : ℕ) → r < A → (r + A * c) % A ≡ r
field_mod A r c h = add-mul-mod_self_left r A c ∙ mod-eq_of_lt h

-- The middle of three fields.
pub field_middle : (A B r c d : ℕ) → r < A → c < B → (r + A * (c + B * d)) / A % B ≡ c
field_middle A B r c d p q = ap (λ (t : ℕ). t % B) (field_div A r (c + B * d) p) ∙ field_mod B c d q

pub mod-mul : (N A B : ℕ) → 0 < A → 0 < B → N % (A * B) ≡ N % A + A * (N / A % B)
mod-mul N A B p q =
    ap (λ (t : ℕ). t % (A * B)) shape
    ∙ field_mod (A * B) (N % A + A * (N / A % B)) (N / A / B)
        (field_lt A B (N % A) (N / A % B) (mod-lt N p) (mod-lt (N / A) q))
  where
    shape : N ≡ N % A + A * (N / A % B) + A * B * (N / A / B)
    shape = omega (arith, div-add-mod N A, ap (λ (t : ℕ). A * t) (div-add-mod (N / A) B))

pub mod-mul_div : (N A B : ℕ) → 0 < A → 0 < B → N % (A * B) / A ≡ N / A % B
mod-mul_div N A B p q =
    ap (λ (t : ℕ). t / A) (mod-mul N A B p q) ∙ field_div A (N % A) (N / A % B) (mod-lt N p)

pub mod-mul_mod : (N A B : ℕ) → 0 < A → 0 < B → N % (A * B) % A ≡ N % A
mod-mul_mod N A B p q =
    ap (λ (t : ℕ). t % A) (mod-mul N A B p q) ∙ field_mod A (N % A) (N / A % B) (mod-lt N p)

-- The same for powers of two.
pub div-pow_add : (N a b : ℕ) → N / 2 ^ a / 2 ^ b ≡ N / 2 ^ (a + b)
div-pow_add N a b = div-div-eq-div-mul N (2 ^ a) (2 ^ b) ∙ ap (λ (t : ℕ). N / t) (sym (pow-add a b))

pub mod-pow_div : (N a b : ℕ) → N % 2 ^ (a + b) / 2 ^ a ≡ N / 2 ^ a % 2 ^ b
mod-pow_div N a b =
    ap (λ (t : ℕ). N % t / 2 ^ a) (pow-add a b)
    ∙ mod-mul_div N (2 ^ a) (2 ^ b) (pow_pos a) (pow_pos b)

pub mod-pow_mod : (N a b : ℕ) → a ≤ b → N % 2 ^ b % 2 ^ a ≡ N % 2 ^ a
mod-pow_mod N a b h =
    ap (λ (t : ℕ). N % t % 2 ^ a) (pow-split a b h)
    ∙ mod-mul_mod N (2 ^ a) (2 ^ (b - a)) (pow_pos a) (pow_pos (b - a))

pub mod-pow_add : (N a b : ℕ) → N % 2 ^ (a + b) ≡ N % 2 ^ a + 2 ^ a * (N / 2 ^ a % 2 ^ b)
mod-pow_add N a b =
    ap (λ (t : ℕ). N % t) (pow-add a b) ∙ mod-mul N (2 ^ a) (2 ^ b) (pow_pos a) (pow_pos b)

pub field_pow_lt : (a b r c : ℕ) → r < 2 ^ a → c < 2 ^ b → r + 2 ^ a * c < 2 ^ (a + b)
field_pow_lt a b r c p q = omega (arith, pow-add a b, field_lt (2 ^ a) (2 ^ b) r c p q)
