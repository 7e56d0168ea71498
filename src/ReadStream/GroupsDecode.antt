-- ===== src/ReadStream/GroupsDecode.antt =====
-- About the offset of `serialize_int128` of src/stream.rs on a `ReadStream` that stands before its
-- code.
use serialize_rs.Base.{
  ℕ, ◌+◌, ◌-◌, ◌*◌, ◌%◌, ◌^◌, ◌≤◌, ◌<◌, ◌≡◌, refl, ap, sym, ◌∙◌, arith, Bool, true, leb, inl, inr,
  Bool-cases, leb→le, leb→lt, le→leb, pow_mono,
}
use serialize_rs.Base.Int.{ℤ, leb_ℤ, eq_ℤ, span}
use serialize_rs.BitsRequired.{bits_required128}
use serialize_rs.Outcome.{Outcome, ok, attempt}
use serialize_rs.Stream.Code.{ranged_bits, Ranged, code-le-range, ranged-IsFewest, degenerate_code}
use serialize_rs.Stream.Groups.{
  group1, group2, group3, two_groups, three_groups, four_groups, join_groups_lem, last_group,
}
use serialize_rs.Stream.Wide.{join_groups, serialize_offset128, serialize_int128}
use serialize_rs.ReadStream.{ReadStream, read_stream, serialize_bits}
use serialize_rs.ReadStream.Sees.{Sees, past, Sees-as, Sees-low, Sees-high, serialize_bits-Sees}
use serialize_rs.ReadStream.Decode.{
  serialize_degenerate-Sees, only_value, past_none, decode_offset_lem,
}

module _ (checked : Bool) (result : ℕ) where
  group-Sees :
      (s : ReadStream) (group rest bits : ℕ) (next : ℕ → ReadStream → Outcome ℕ ReadStream)
      → group < 2 ^ 32
      → 32 < bits
      → Sees s (group + 2 ^ 32 * rest) bits
      → (Sees (past s 32) rest (bits - 32)
          → next group (past s 32) ≡ ok result (past (past s 32) (bits - 32)))
      → attempt 0 (serialize_bits checked 0 32 s) next ≡ ok result (past s bits)
  group-Sees s group rest bits next small more seen then =
      let split = Sees-as (group + 2 ^ 32 * rest) (32 + (bits - 32)) refl (omega arith) seen in
      rw
        (serialize_bits-Sees checked 0 group 32 (omega arith) (omega arith)
          (Sees-low 32 (bits - 32) group rest small split))
        (then (Sees-high 32 (bits - 32) group rest small split)
          ∙ ap (λ (t : ℕ). ok result (record s { reader = record (s.reader) { bits_read = t } }))
              whole)
    where
      whole : s.reader.bits_read + 32 + (bits - 32) ≡ s.reader.bits_read + bits
      whole = omega arith

  last-Sees :
      (s : ReadStream) (group bits : ℕ) (next : ℕ → ReadStream → Outcome ℕ ReadStream)
      → 1 ≤ bits
      → bits ≤ 32
      → Sees s group bits
      → ((s1 : ReadStream) → next group s1 ≡ ok result s1)
      → attempt 0 (serialize_bits checked 0 bits s) next ≡ ok result (past s bits)
  last-Sees s group bits next some_bits narrow seen then =
      rw (serialize_bits-Sees checked 0 group bits some_bits narrow seen) (then (past s bits))

  two-Sees :
      (s : ReadStream) (a b bits : ℕ) (end : ℕ → ℕ → ReadStream → Outcome ℕ ReadStream)
      → a < 2 ^ 32
      → 32 < bits
      → bits ≤ 64
      → Sees s (a + 2 ^ 32 * b) bits
      → ((t : ReadStream) → end a b t ≡ ok result t)
      → (attempt 0
          (serialize_bits checked 0 32 s)
          λ g0 s1. attempt 0 (serialize_bits checked 0 (bits - 32) s1) λ g1 s2. end g0 g1 s2)
        ≡ ok result (past s bits)
  two-Sees s a b bits end ha lo hi seen ends =
      group-Sees s a (b) bits _ ha (omega arith) seen
        λ seen1. last-Sees (past s 32) b (bits - 32) _ (omega arith) (omega arith) seen1 ends

  three-Sees :
      (s : ReadStream) (a b c bits : ℕ) (end : ℕ → ℕ → ℕ → ReadStream → Outcome ℕ ReadStream)
      → a < 2 ^ 32
      → b < 2 ^ 32
      → 64 < bits
      → bits ≤ 96
      → Sees s (a + 2 ^ 32 * (b + 2 ^ 32 * c)) bits
      → ((t : ReadStream) → end a b c t ≡ ok result t)
      → (attempt 0 (serialize_bits checked 0 32 s) λ g0 s1.
          attempt 0
            (serialize_bits checked 0 32 s1)
            λ g1 s2. attempt 0 (serialize_bits checked 0 (bits - 64) s2) λ g2 s3. end g0 g1 g2 s3)
        ≡ ok result (past s bits)
  three-Sees s a b c bits end ha hb lo hi seen ends =
      group-Sees s a (b + 2 ^ 32 * c) bits _ ha (omega arith) seen λ seen1.
        group-Sees (past s 32) b (c) (bits - 32) _ hb (omega arith) seen1 λ seen2.
          last-Sees (past (past s 32) 32) c (bits - 64) _ (omega arith) (omega arith)
            (Sees-as c (bits - 64) refl (omega arith) seen2) ends
          ∙ ap (λ (k : ℕ). ok result (past (past (past s 32) 32) k)) (omega arith)

  four-Sees :
      (s : ReadStream) (a b c d bits : ℕ) (end : ℕ → ℕ → ℕ → ℕ → ReadStream → Outcome ℕ ReadStream)
      → a < 2 ^ 32
      → b < 2 ^ 32
      → c < 2 ^ 32
      → 96 < bits
      → bits ≤ 128
      → Sees s (a + 2 ^ 32 * (b + 2 ^ 32 * (c + 2 ^ 32 * d))) bits
      → ((t : ReadStream) → end a b c d t ≡ ok result t)
      → (attempt 0 (serialize_bits checked 0 32 s) λ g0 s1.
          attempt 0 (serialize_bits checked 0 32 s1) λ g1 s2.
            attempt 0 (serialize_bits checked 0 32 s2) λ g2 s3.
              attempt 0 (serialize_bits checked 0 (bits - 96) s3) λ g3 s4. end g0 g1 g2 g3 s4)
        ≡ ok result (past s bits)
  four-Sees s a b c d bits end ha hb hc lo hi seen ends =
      group-Sees s a (b + 2 ^ 32 * (c + 2 ^ 32 * d)) bits _ ha (omega arith) seen λ seen1.
        group-Sees (past s 32) b (c + 2 ^ 32 * d) (bits - 32) _ hb (omega arith) seen1 λ seen2.
          group-Sees (past (past s 32) 32) c (d) (bits - 32 - 32) _ hc (omega arith) seen2 λ seen3.
            last-Sees (past (past (past s 32) 32) 32) d (bits - 96) _ (omega arith) (omega arith)
              (Sees-as d (bits - 96) refl (omega arith) seen3) ends
            ∙ ap (λ (k : ℕ). ok result (past (past (past (past s 32) 32) 32) k)) (omega arith)

joined :
    (n a b c d : ℕ)
    → a < 2 ^ 32
    → b < 2 ^ 32
    → c < 2 ^ 32
    → d < 2 ^ 32
    → a + 2 ^ 32 * (b + 2 ^ 32 * (c + 2 ^ 32 * d)) ≡ n
    → join_groups a b c d ≡ n
joined n a b c d ha hb hc hd e = join_groups_lem a b c d ha hb hc hd ∙ e

module _ (checked : Bool) (s : ReadStream) where
  pub serialize_offset128-Sees :
      (n bits : ℕ)
      → 1 ≤ bits
      → bits ≤ 128
      → n < 2 ^ bits
      → Sees s n bits
      → serialize_offset128 (read_stream checked) 0 bits s ≡ ok n (past s bits)
  unfolding serialize_offset128
  serialize_offset128-Sees n bits lo hi small seen =
      rw (le→leb 1 bits lo, le→leb bits 128 hi)
        (elim (Bool-cases (leb bits 32)) [
          | inl one ↦
              let fits : n < 2 ^ 32 =
                omega (arith, small, pow_mono {b = 32} (leb→le bits 32 one)) in
              rw one (
                last-Sees checked n s n bits _ lo (leb→le bits 32 one) seen λ s1.
                  ap (λ (t : ℕ). ok t s1)
                    (joined n n 0 0 0 fits (omega arith) (omega arith) (omega arith) (omega arith)))
          | inr above32 ↦ elim (Bool-cases (leb bits 64)) [
            | inl two ↦
                let (top, whole) =
                  two_groups bits n (leb→lt bits 32 above32) (leb→le bits 64 two) small in
                rw (above32, two)
                  (two-Sees checked n s (n % 2 ^ 32) (group1 n) bits _ (omega arith)
                    (leb→lt bits 32 above32) (leb→le bits 64 two)
                    (Sees-as _ bits (sym whole) refl seen)
                    λ t.
                      ap (λ (k : ℕ). ok k t)
                        (joined n (n % 2 ^ 32) (group1 n) 0 0 (omega arith) (omega arith)
                          (omega arith) (omega arith) (omega (arith, whole))))
            | inr above64 ↦ elim (Bool-cases (leb bits 96)) [
              | inl three ↦
                  let (top, whole) =
                    three_groups bits n (leb→lt bits 64 above64) (leb→le bits 96 three) small in
                  rw (above32, above64, three)
                    (three-Sees checked n s (n % 2 ^ 32) (group1 n) (group2 n) bits _ (omega arith)
                      (omega arith) (leb→lt bits 64 above64) (leb→le bits 96 three)
                      (Sees-as _ bits (sym whole) refl seen)
                      λ t.
                        ap (λ (k : ℕ). ok k t)
                          (joined n (n % 2 ^ 32) (group1 n) (group2 n) 0 (omega arith) (omega arith)
                            (omega arith) (omega arith) (omega (arith, whole))))
              | inr above96 ↦
                  let (top, whole) = four_groups bits n (leb→lt bits 96 above96) hi small in
                  rw (above32, above64, above96)
                    (four-Sees checked n s (n % 2 ^ 32) (group1 n) (group2 n) (group3 n) bits _
                      (omega arith) (omega arith) (omega arith) (leb→lt bits 96 above96) hi
                      (Sees-as _ bits (sym whole) refl seen)
                      λ t.
                        ap (λ (k : ℕ). ok k t)
                          (joined n (n % 2 ^ 32) (group1 n) (group2 n) (group3 n) (omega arith)
                            (omega arith) (omega arith) (last_group (group3 n) 96 bits hi top)
                            (omega (arith, whole))))
            ]
          ]
        ])

  pub serialize_int128-Sees :
      (dest min v max : ℤ)
      → Ranged 128 min v max
      → Sees s (span 128 min v) (ranged_bits 128 min max)
      → serialize_int128 (read_stream checked) dest min max s
        ≡ ok v (past s (ranged_bits 128 min max))
  unfolding serialize_int128 bits_required128
  serialize_int128-Sees dest min v max (fits_min, fits_v, fits_max, lo, hi) seen =
      elim (Bool-cases (eq_ℤ min max)) [
        | inl same ↦
            let ordered : leb_ℤ min max ≡ true = le→leb _ _ (omega (arith, lo, hi)) in
            let (_, no_bits) =
              degenerate_code 128 (omega arith) min v max fits_min fits_v fits_max lo hi same in
            rw (ordered, same)
              (serialize_degenerate-Sees checked dest min seen.fresh
                ∙ ap (λ (z : ℤ). ok z s) (only_value min v max lo hi same)
                ∙ ap (λ (z : ReadStream). ok v z) (sym (past_none s _ no_bits)))
        | inr range ↦
            let ordered : leb_ℤ min max ≡ true = le→leb _ _ (omega (arith, lo, hi)) in
            let fewest =
              ranged-IsFewest 128 (omega arith) min v max fits_min fits_v fits_max lo hi range in
            rw
              (
                ordered,
                range,
                serialize_offset128-Sees (span 128 min v) (ranged_bits 128 min max) fewest.some_bits
                    fewest.at_most
                    (omega (
                      arith,
                      fewest.enough,
                      code-le-range 128 (omega arith) min v max fits_min fits_v fits_max lo hi,
                    ))
                    seen,
              )
              (decode_offset_lem 128 (omega arith) min v max fits_min fits_v fits_max lo hi checked
                dest _)
      ]
