-- ===== src/MeasureStream/Groups.antt =====
-- About the offset of `serialize_int128` of src/stream.rs on a `MeasureStream`: what its groups count.
use serialize_rs.Base.{
  ℕ, ◌+◌, ◌-◌, ◌%◌, ◌^◌, ◌≤◌, ◌<◌, ◌≡◌, refl, ap, sym, ◌∙◌, arith, Bool, true, leb, inl, inr,
  Bool-cases, leb→le, leb→lt, le→leb, pow_mono,
}
use native.Mathlib.Nat.{mod-eq_of_lt}
use serialize_rs.Base.Int.{ℤ, leb_ℤ, eq_ℤ, span}
use serialize_rs.BitsRequired.{bits_required128}
use serialize_rs.Outcome.{Outcome, ok, attempt}
use serialize_rs.Stream.Code.{ranged_bits, Ranged, code-le-range, ranged-IsFewest, degenerate_code}
use serialize_rs.Stream.Groups.{group1, group2, group3, two_groups, three_groups, four_groups}
use serialize_rs.Stream.Ranged.{decode_offset}
use serialize_rs.Stream.Wide.{serialize_offset128, serialize_int128}
use serialize_rs.MeasureStream.{MeasureStream, measure_stream, serialize_bits}
use serialize_rs.MeasureStream.Shared.{counted, serialize_bits-counted, degenerate-counted}

module _ (checked : Bool) (result : ℕ) where
  group-counted :
      (s : MeasureStream) (group bits : ℕ) (next : ℕ → MeasureStream → Outcome ℕ MeasureStream)
      → group < 2 ^ 32
      → 32 < bits
      → s.bits_written + bits < 2 ^ 64
      → next group (counted s 32) ≡ ok result (counted (counted s 32) (bits - 32))
      → attempt result (serialize_bits checked group 32 s) next ≡ ok result (counted s bits)
  group-counted s group bits next small more room then =
      rw (serialize_bits-counted checked s group 32 (omega arith) (omega arith) small (omega arith))
        (then ∙ ap (λ (t : ℕ). ok result (record { bits_written = t })) (omega arith))

  last-counted :
      (s : MeasureStream) (group bits : ℕ) (next : ℕ → MeasureStream → Outcome ℕ MeasureStream)
      → group < 2 ^ bits
      → 1 ≤ bits
      → bits ≤ 32
      → s.bits_written + bits < 2 ^ 64
      → ((s1 : MeasureStream) → next group s1 ≡ ok result s1)
      → attempt result (serialize_bits checked group bits s) next ≡ ok result (counted s bits)
  last-counted s group bits next small some_bits narrow room then =
      rw (serialize_bits-counted checked s group bits some_bits narrow small room)
        (then (counted s bits))

  two-counted :
      (s : MeasureStream) (a b bits : ℕ) (end : ℕ → ℕ → MeasureStream → Outcome ℕ MeasureStream)
      → a < 2 ^ 32
      → b < 2 ^ (bits - 32)
      → 32 < bits
      → bits ≤ 64
      → s.bits_written + bits < 2 ^ 64
      → ((t : MeasureStream) → end a b t ≡ ok result t)
      → (attempt result
          (serialize_bits checked a 32 s)
          λ g0 s1. attempt result (serialize_bits checked b (bits - 32) s1) λ g1 s2. end g0 g1 s2)
        ≡ ok result (counted s bits)
  two-counted s a b bits end ha hb lo hi room ends =
      group-counted s a bits _ ha (omega arith) (omega arith) (
        last-counted (counted s 32) b (bits - 32) _ hb (omega arith) (omega arith) (omega arith)
          ends)

  three-counted :
      (s : MeasureStream) (a b c bits : ℕ)
      (end : ℕ → ℕ → ℕ → MeasureStream → Outcome ℕ MeasureStream)
      → a < 2 ^ 32
      → b < 2 ^ 32
      → c < 2 ^ (bits - 64)
      → 64 < bits
      → bits ≤ 96
      → s.bits_written + bits < 2 ^ 64
      → ((t : MeasureStream) → end a b c t ≡ ok result t)
      → (attempt result (serialize_bits checked a 32 s) λ g0 s1.
          attempt result (serialize_bits checked b 32 s1) λ g1 s2.
            attempt result (serialize_bits checked c (bits - 64) s2) λ g2 s3. end g0 g1 g2 s3)
        ≡ ok result (counted s bits)
  three-counted s a b c bits end ha hb hc lo hi room ends =
      group-counted s a bits _ ha (omega arith) (omega arith) (
        group-counted (counted s 32) b (bits - 32) _ hb (omega arith) (omega arith) (
          last-counted (counted (counted s 32) 32) c (bits - 64) _ hc (omega arith) (omega arith)
            (omega arith) ends
          ∙ ap (λ (k : ℕ). ok result (record { bits_written = k })) (omega arith)))

  four-counted :
      (s : MeasureStream) (a b c d bits : ℕ)
      (end : ℕ → ℕ → ℕ → ℕ → MeasureStream → Outcome ℕ MeasureStream)
      → a < 2 ^ 32
      → b < 2 ^ 32
      → c < 2 ^ 32
      → d < 2 ^ (bits - 96)
      → 96 < bits
      → bits ≤ 128
      → s.bits_written + bits < 2 ^ 64
      → ((t : MeasureStream) → end a b c d t ≡ ok result t)
      → (attempt result (serialize_bits checked a 32 s) λ g0 s1.
          attempt result (serialize_bits checked b 32 s1) λ g1 s2.
            attempt result (serialize_bits checked c 32 s2) λ g2 s3.
              attempt result (serialize_bits checked d (bits - 96) s3) λ g3 s4. end g0 g1 g2 g3 s4)
        ≡ ok result (counted s bits)
  four-counted s a b c d bits end ha hb hc hd lo hi room ends =
      group-counted s a bits _ ha (omega arith) (omega arith) (
        group-counted (counted s 32) b (bits - 32) _ hb (omega arith) (omega arith) (
          group-counted (counted (counted s 32) 32) c (bits - 32 - 32) _ hc (omega arith)
            (omega arith)
            (last-counted (counted (counted (counted s 32) 32) 32) d (bits - 96) _ hd (omega arith)
                (omega arith) (omega arith) ends
              ∙ ap (λ (k : ℕ). ok result (record { bits_written = k })) (omega arith))))

module _ (checked : Bool) (s : MeasureStream) where
  pub serialize_offset128-counted :
      (n bits : ℕ)
      → 1 ≤ bits
      → bits ≤ 128
      → n < 2 ^ bits
      → s.bits_written + bits < 2 ^ 64
      → serialize_offset128 (measure_stream checked) n bits s ≡ ok n (counted s bits)
  unfolding serialize_offset128
  serialize_offset128-counted n bits lo hi small room =
      rw (le→leb 1 bits lo, le→leb bits 128 hi)
        (elim (Bool-cases (leb bits 32)) [
          | inl one ↦
              let fits : n % 2 ^ 32 ≡ n =
                mod-eq_of_lt (omega (arith, small, pow_mono {b = 32} (leb→le bits 32 one))) in
              rw one (
                last-counted checked n s (n % 2 ^ 32) bits _ (omega (arith, fits, small)) lo
                  (leb→le bits 32 one) room λ _. refl)
          | inr above32 ↦ elim (Bool-cases (leb bits 64)) [
            | inl two ↦
                let (top, _) =
                  two_groups bits n (leb→lt bits 32 above32) (leb→le bits 64 two) small in
                rw (above32, two)
                  (two-counted checked n s (n % 2 ^ 32) (group1 n) bits _ (omega arith) top
                    (leb→lt bits 32 above32) (leb→le bits 64 two) room λ _. refl)
            | inr above64 ↦ elim (Bool-cases (leb bits 96)) [
              | inl three ↦
                  let (top, _) =
                    three_groups bits n (leb→lt bits 64 above64) (leb→le bits 96 three) small in
                  rw (above32, above64, three)
                    (three-counted checked n s (n % 2 ^ 32) (group1 n) (group2 n) bits _
                      (omega arith) (omega arith) top (leb→lt bits 64 above64)
                      (leb→le bits 96 three) room λ _. refl)
              | inr above96 ↦
                  let (top, _) = four_groups bits n (leb→lt bits 96 above96) hi small in
                  rw (above32, above64, above96)
                    (four-counted checked n s (n % 2 ^ 32) (group1 n) (group2 n) (group3 n) bits _
                      (omega arith) (omega arith) (omega arith) top (leb→lt bits 96 above96) hi room
                      λ _. refl)
            ]
          ]
        ])

  pub serialize_int128-counted :
      (min v max : ℤ)
      → Ranged 128 min v max
      → s.bits_written + ranged_bits 128 min max < 2 ^ 64
      → serialize_int128 (measure_stream checked) v min max s
        ≡ ok v (counted s (ranged_bits 128 min max))
  unfolding serialize_int128 bits_required128 decode_offset
  serialize_int128-counted min v max (fits_min, fits_v, fits_max, lo, hi) room =
      elim (Bool-cases (eq_ℤ min max)) [
        | inl same ↦
            let ordered : leb_ℤ min max ≡ true = le→leb _ _ (omega (arith, lo, hi)) in
            let (_, no_bits) =
              degenerate_code 128 (omega arith) min v max fits_min fits_v fits_max lo hi same in
            rw (ordered, same)
              (degenerate-counted checked s v min
                ∙ ap (λ (t : ℕ). ok v (counted s t)) (sym no_bits))
        | inr range ↦
            let ordered : leb_ℤ min max ≡ true = le→leb _ _ (omega (arith, lo, hi)) in
            let above : leb_ℤ min v ≡ true = le→leb _ _ lo in
            let below : leb_ℤ v max ≡ true = le→leb _ _ hi in
            let fewest =
              ranged-IsFewest 128 (omega arith) min v max fits_min fits_v fits_max lo hi range in
            rw
              (
                ordered,
                range,
                above,
                below,
                serialize_offset128-counted (span 128 min v) (ranged_bits 128 min max)
                    fewest.some_bits fewest.at_most
                    (omega (
                      arith,
                      fewest.enough,
                      code-le-range 128 (omega arith) min v max fits_min fits_v fits_max lo hi,
                    ))
                    room,
              )
              refl
      ]
