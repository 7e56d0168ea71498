-- ===== src/Stream/Groups.antt =====
-- The four 32-bit groups of a 128-bit offset, as numbers.
use serialize_rs.Base.{
  ℕ, ◌+◌, ◌-◌, ◌*◌, ◌/◌, ◌%◌, ◌^◌, cast, shr, ◌≤◌, ◌<◌, ◌≡◌, ap, ap₂, ◌∙◌, arith, shl, bit_or,
  bit_or_below, pow_mono,
}
use serialize_rs.Stream.Wide.{join_groups}
use serialize_rs.Stream.Dwords.{two_dwords-lt, high_dword-lt}

-- The four groups, as one number.
pub join_groups_lem :
    (a b c d : ℕ)
    → a < 2 ^ 32
    → b < 2 ^ 32
    → c < 2 ^ 32
    → d < 2 ^ 32
    → join_groups a b c d ≡ a + 2 ^ 32 * (b + 2 ^ 32 * (c + 2 ^ 32 * d))
unfolding join_groups
join_groups_lem a b c d ha hb hc hd =
    ap (λ (t : ℕ). bit_or (bit_or t (shl 128 b 32)) a) top
    ∙ ap (λ (t : ℕ). bit_or t a) middle
    ∙ bit_or_below 32 (b + 2 ^ 32 * (c + 2 ^ 32 * d)) a ha
  where
    shifted3 : shl 128 d 96 ≡ 2 ^ 96 * d
    shifted3 = omega arith

    shifted2 : shl 128 c 64 ≡ 2 ^ 64 * c
    shifted2 = omega arith

    shifted1 : shl 128 b 32 ≡ 2 ^ 32 * b
    shifted1 = omega arith

    top : bit_or (shl 128 d 96) (shl 128 c 64) ≡ 2 ^ 64 * (c + 2 ^ 32 * d)
    top = ap₂ bit_or shifted3 shifted2 ∙ bit_or_below 96 d (2 ^ 64 * c) (omega arith) ∙ omega arith

    middle :
        bit_or (2 ^ 64 * (c + 2 ^ 32 * d)) (shl 128 b 32) ≡ 2 ^ 32 * (b + 2 ^ 32 * (c + 2 ^ 32 * d))
    middle =
        ap (bit_or (2 ^ 64 * (c + 2 ^ 32 * d))) shifted1
        ∙ bit_or_below 64 (c + 2 ^ 32 * d) (2 ^ 32 * b) (omega arith)
        ∙ omega arith

pub three-lt :
    (bits a b c : ℕ)
    → 64 < bits
    → a < 2 ^ 32
    → b < 2 ^ 32
    → c < 2 ^ (bits - 64)
    → a + 2 ^ 32 * (b + 2 ^ 32 * c) < 2 ^ bits
three-lt bits a b c h ha hb hc =
    two_dwords-lt bits a (b + 2 ^ 32 * c) (omega arith) ha (
      two_dwords-lt (bits - 32) b c (omega arith) hb
        (omega (arith, hc, ap (λ (t : ℕ). 2 ^ t) rest)))
  where
    rest : bits - 32 - 32 ≡ bits - 64
    rest = omega arith

pub four-lt :
    (bits a b c d : ℕ)
    → 96 < bits
    → a < 2 ^ 32
    → b < 2 ^ 32
    → c < 2 ^ 32
    → d < 2 ^ (bits - 96)
    → a + 2 ^ 32 * (b + 2 ^ 32 * (c + 2 ^ 32 * d)) < 2 ^ bits
four-lt bits a b c d h ha hb hc hd =
    two_dwords-lt bits a (b + 2 ^ 32 * (c + 2 ^ 32 * d)) (omega arith) ha (
      three-lt (bits - 32) b c d (omega arith) hb hc
        (omega (arith, hd, ap (λ (t : ℕ). 2 ^ t) rest)))
  where
    rest : bits - 32 - 64 ≡ bits - 96
    rest = omega arith

-- The last group of a width that has no more bits than its groups.
pub last_group : (n most bits : ℕ) → bits ≤ most + 32 → n < 2 ^ (bits - most) → n < 2 ^ 32
last_group n most bits h small = omega (arith, small, pow_mono {b = 32} fits)
  where
    fits : bits - most ≤ 32
    fits = omega arith

-- The groups of an offset, as the codec takes them.
abbrev pub group1 : ℕ → ℕ
group1 offset = cast 32 (shr 128 offset 32)

abbrev pub group2 : ℕ → ℕ
group2 offset = cast 32 (shr 128 offset 64)

abbrev pub group3 : ℕ → ℕ
group3 offset = cast 32 (shr 128 offset 96)

pub two_groups :
    (bits n : ℕ)
    → 32 < bits
    → bits ≤ 64
    → n < 2 ^ bits
    → (group1 n < 2 ^ (bits - 32)) × (n % 2 ^ 32 + 2 ^ 32 * group1 n ≡ n)
two_groups bits n lo hi small =
    (omega (arith, word, high_dword-lt bits n lo small), omega (arith, word))
  where
    word : n < 2 ^ 64
    word = omega (arith, small, pow_mono {b = 64} hi)

pub three_groups :
    (bits n : ℕ)
    → 64 < bits
    → bits ≤ 96
    → n < 2 ^ bits
    → (group2 n < 2 ^ (bits - 64)) × (n % 2 ^ 32 + 2 ^ 32 * (group1 n + 2 ^ 32 * group2 n) ≡ n)
three_groups bits n lo hi small =
    (omega (arith, word, top, ap (λ (t : ℕ). 2 ^ t) rest), omega (arith, word))
  where
    word : n < 2 ^ 96
    word = omega (arith, small, pow_mono {b = 96} hi)

    rest : bits - 32 - 32 ≡ bits - 64
    rest = omega arith

    top : n / 2 ^ 32 / 2 ^ 32 < 2 ^ (bits - 32 - 32)
    top =
        high_dword-lt (bits - 32) (n / 2 ^ 32) (omega arith)
          (high_dword-lt bits n (omega arith) small)

pub four_groups :
    (bits n : ℕ)
    → 96 < bits
    → bits ≤ 128
    → n < 2 ^ bits
    → (group3 n < 2 ^ (bits - 96))
      × (n % 2 ^ 32 + 2 ^ 32 * (group1 n + 2 ^ 32 * (group2 n + 2 ^ 32 * group3 n)) ≡ n)
four_groups bits n lo hi small =
    (omega (arith, word, top, ap (λ (t : ℕ). 2 ^ t) rest), omega (arith, word))
  where
    word : n < 2 ^ 128
    word = omega (arith, small, pow_mono {b = 128} hi)

    rest : bits - 32 - 32 - 32 ≡ bits - 96
    rest = omega arith

    top : n / 2 ^ 32 / 2 ^ 32 / 2 ^ 32 < 2 ^ (bits - 32 - 32 - 32)
    top = high_dword-lt (bits - 32 - 32) (n / 2 ^ 32 / 2 ^ 32) (omega arith) (
        high_dword-lt (bits - 32) (n / 2 ^ 32) (omega arith)
          (high_dword-lt bits n (omega arith) small))
