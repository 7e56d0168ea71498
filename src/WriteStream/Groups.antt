-- ===== src/WriteStream/Groups.antt =====
-- About the offset of `serialize_int128` of src/stream.rs on a `WriteStream`: what its groups put on
-- the wire.
use serialize_rs.Base.{
  ℕ, ◌+◌, ◌-◌, ◌*◌, ◌%◌, ◌^◌, ◌≤◌, ◌<◌, ◌≡◌, refl, sym, arith, Bool, true, leb, inl, inr,
  Bool-cases, leb→le, leb→lt, le→leb, pow_mono,
}
use native.Mathlib.Nat.{mod-eq_of_lt}
use serialize_rs.Base.Int.{ℤ, leb_ℤ, eq_ℤ, span}
use serialize_rs.BitsRequired.{bits_required128}
use serialize_rs.Outcome.{Outcome, ok, attempt}
use serialize_rs.BitWriter.Valid.{IsValid}
use serialize_rs.Stream.Code.{ranged_bits, Ranged, code-le-range, ranged-IsFewest, degenerate_code}
use serialize_rs.Stream.Groups.{group1, group2, group3, two_groups, three_groups, four_groups}
use serialize_rs.Stream.Ranged.{decode_offset}
use serialize_rs.Stream.Wide.{serialize_offset128, serialize_int128}
use serialize_rs.WriteStream.{WriteStream, write_stream, serialize_bits}
use serialize_rs.WriteStream.Writes.{Writes, Writes-as, Writes-attempt, Writes-last}
use serialize_rs.WriteStream.Basic.{serialize_bits-Writes}
use serialize_rs.WriteStream.Shared.{serialize_degenerate-Writes}

module _ (checked : Bool) (result : ℕ) where
  -- A group of 32 bits, and what is behind it.
  group-Writes :
      {s : WriteStream} (group rest bits : ℕ) (next : ℕ → WriteStream → Outcome ℕ WriteStream)
      → IsValid s.writer
      → group < 2 ^ 32
      → 32 < bits
      → s.writer.bits_written + bits ≤ s.writer.num_bits
      → ((s1 : WriteStream)
          → IsValid s1.writer
          → s1.writer.bits_written + (bits - 32) ≤ s1.writer.num_bits
          → Writes s1 result rest (bits - 32) (next group s1))
      → Writes s result
          (group + 2 ^ 32 * rest)
          bits
          (attempt result (serialize_bits checked group 32 s) next)
  group-Writes group rest bits next valid small more room then =
      let field =
        serialize_bits-Writes checked valid group 32 (record {
          wide = omega arith;
          narrow = omega arith;
          small = small;
          space = omega arith;
        }) in
      Writes-as
        (Writes-attempt field result next
          (then field.out field.valid (omega (arith, field.counted, field.same_size))))
        refl (omega arith) refl

  -- The last group.
  last-Writes :
      {s : WriteStream} (group bits : ℕ) (next : ℕ → WriteStream → Outcome ℕ WriteStream)
      → IsValid s.writer
      → group < 2 ^ bits
      → 1 ≤ bits
      → bits ≤ 32
      → s.writer.bits_written + bits ≤ s.writer.num_bits
      → ((s1 : WriteStream) → next group s1 ≡ ok result s1)
      → Writes s result group bits (attempt result (serialize_bits checked group bits s) next)
  last-Writes group bits next valid small some_bits narrow room then =
      let field =
        serialize_bits-Writes checked valid group bits
          (record { wide = some_bits; narrow = narrow; small = small; space = room }) in
      Writes-last field result next (then field.out)

  two-Writes :
      {s : WriteStream} (a b bits : ℕ) (end : ℕ → ℕ → WriteStream → Outcome ℕ WriteStream)
      → IsValid s.writer
      → a < 2 ^ 32
      → b < 2 ^ (bits - 32)
      → 32 < bits
      → bits ≤ 64
      → s.writer.bits_written + bits ≤ s.writer.num_bits
      → ((t : WriteStream) → end a b t ≡ ok result t)
      → Writes s result (a + 2 ^ 32 * b) bits (
          attempt result
            (serialize_bits checked a 32 s)
            λ g0 s1. attempt result (serialize_bits checked b (bits - 32) s1) λ g1 s2. end g0 g1 s2)
  two-Writes a b bits end valid ha hb lo hi room ends =
      group-Writes a (b) bits _ valid ha (omega arith) room λ s1 v1 r1.
        last-Writes b (bits - 32) _ v1 hb (omega arith) (omega arith) (omega (arith, r1)) ends

  three-Writes :
      {s : WriteStream} (a b c bits : ℕ) (end : ℕ → ℕ → ℕ → WriteStream → Outcome ℕ WriteStream)
      → IsValid s.writer
      → a < 2 ^ 32
      → b < 2 ^ 32
      → c < 2 ^ (bits - 64)
      → 64 < bits
      → bits ≤ 96
      → s.writer.bits_written + bits ≤ s.writer.num_bits
      → ((t : WriteStream) → end a b c t ≡ ok result t)
      → Writes s result (a + 2 ^ 32 * (b + 2 ^ 32 * c)) bits (
          attempt result (serialize_bits checked a 32 s) λ g0 s1.
            attempt result (serialize_bits checked b 32 s1) λ g1 s2.
              attempt result (serialize_bits checked c (bits - 64) s2) λ g2 s3. end g0 g1 g2 s3)
  three-Writes a b c bits end valid ha hb hc lo hi room ends =
      group-Writes a (b + 2 ^ 32 * c) bits _ valid ha (omega arith) room λ s1 v1 r1.
        group-Writes b (c) (bits - 32) _ v1 hb (omega arith) r1 λ s2 v2 r2.
          Writes-as
            (last-Writes c (bits - 64) _ v2 hc (omega arith) (omega arith) (omega (arith, r2)) ends)
            refl (omega arith) refl

  four-Writes :
      {s : WriteStream} (a b c d bits : ℕ)
      (end : ℕ → ℕ → ℕ → ℕ → WriteStream → Outcome ℕ WriteStream)
      → IsValid s.writer
      → a < 2 ^ 32
      → b < 2 ^ 32
      → c < 2 ^ 32
      → d < 2 ^ (bits - 96)
      → 96 < bits
      → bits ≤ 128
      → s.writer.bits_written + bits ≤ s.writer.num_bits
      → ((t : WriteStream) → end a b c d t ≡ ok result t)
      → Writes s result (a + 2 ^ 32 * (b + 2 ^ 32 * (c + 2 ^ 32 * d))) bits (
          attempt result (serialize_bits checked a 32 s) λ g0 s1.
            attempt result (serialize_bits checked b 32 s1) λ g1 s2.
              attempt result (serialize_bits checked c 32 s2) λ g2 s3.
                attempt result
                  (serialize_bits checked d (bits - 96) s3)
                  λ g3 s4. end g0 g1 g2 g3 s4)
  four-Writes a b c d bits end valid ha hb hc hd lo hi room ends =
      group-Writes a (b + 2 ^ 32 * (c + 2 ^ 32 * d)) bits _ valid ha (omega arith) room λ s1 v1 r1.
        group-Writes b (c + 2 ^ 32 * d) (bits - 32) _ v1 hb (omega arith) r1 λ s2 v2 r2.
          group-Writes c (d) (bits - 32 - 32) _ v2 hc (omega arith) r2 λ s3 v3 r3.
            Writes-as
              (last-Writes d (bits - 96) _ v3 hd (omega arith) (omega arith) (omega (arith, r3))
                ends)
              refl (omega arith) refl

module _ (checked : Bool) {s : WriteStream} (valid : IsValid s.writer) where
  pub serialize_offset128-Writes :
      (n bits : ℕ)
      → 1 ≤ bits
      → bits ≤ 128
      → n < 2 ^ bits
      → s.writer.bits_written + bits ≤ s.writer.num_bits
      → Writes s n n bits (serialize_offset128 (write_stream checked) n bits s)
  unfolding serialize_offset128
  serialize_offset128-Writes n bits lo hi small room =
      rw (le→leb 1 bits lo, le→leb bits 128 hi)
        (elim (Bool-cases (leb bits 32)) [
          | inl one ↦
              let fits : n % 2 ^ 32 ≡ n =
                mod-eq_of_lt (omega (arith, small, pow_mono {b = 32} (leb→le bits 32 one))) in
              rw one (
                Writes-as
                  (last-Writes checked n (n % 2 ^ 32) bits _ valid (omega (arith, fits, small)) lo
                    (leb→le bits 32 one) room λ _. refl)
                  fits refl refl)
          | inr above32 ↦ elim (Bool-cases (leb bits 64)) [
            | inl two ↦
                let (top, whole) =
                  two_groups bits n (leb→lt bits 32 above32) (leb→le bits 64 two) small in
                rw (above32, two)
                  (Writes-as
                    (two-Writes checked n (n % 2 ^ 32) (group1 n) bits _ valid (omega arith) top
                      (leb→lt bits 32 above32) (leb→le bits 64 two) room λ _. refl)
                    whole refl refl)
            | inr above64 ↦ elim (Bool-cases (leb bits 96)) [
              | inl three ↦
                  let (top, whole) =
                    three_groups bits n (leb→lt bits 64 above64) (leb→le bits 96 three) small in
                  rw (above32, above64, three)
                    (Writes-as
                      (three-Writes checked n (n % 2 ^ 32) (group1 n) (group2 n) bits _ valid
                        (omega arith) (omega arith) top (leb→lt bits 64 above64)
                        (leb→le bits 96 three) room λ _. refl)
                      whole refl refl)
              | inr above96 ↦
                  let (top, whole) = four_groups bits n (leb→lt bits 96 above96) hi small in
                  rw (above32, above64, above96)
                    (Writes-as
                      (four-Writes checked n (n % 2 ^ 32) (group1 n) (group2 n) (group3 n) bits _
                        valid (omega arith) (omega arith) (omega arith) top (leb→lt bits 96 above96)
                        hi room λ _. refl)
                      whole refl refl)
            ]
          ]
        ])

  pub serialize_int128-Writes :
      (min v max : ℤ)
      → Ranged 128 min v max
      → s.writer.bits_written + ranged_bits 128 min max ≤ s.writer.num_bits
      → Writes s v
          (span 128 min v)
          (ranged_bits 128 min max)
          (serialize_int128 (write_stream checked) v min max s)
  unfolding serialize_int128 bits_required128 decode_offset
  serialize_int128-Writes min v max (fits_min, fits_v, fits_max, lo, hi) room =
      elim (Bool-cases (eq_ℤ min max)) [
        | inl same ↦
            let ordered : leb_ℤ min max ≡ true = le→leb _ _ (omega (arith, lo, hi)) in
            let (no_code, no_bits) =
              degenerate_code 128 (omega arith) min v max fits_min fits_v fits_max lo hi same in
            Writes-as (serialize_degenerate-Writes checked valid v min) (sym no_code) (sym no_bits)
              (rw (ordered, same) refl)
        | inr range ↦
            let ordered : leb_ℤ min max ≡ true = le→leb _ _ (omega (arith, lo, hi)) in
            let above : leb_ℤ min v ≡ true = le→leb _ _ lo in
            let below : leb_ℤ v max ≡ true = le→leb _ _ hi in
            let fewest =
              ranged-IsFewest 128 (omega arith) min v max fits_min fits_v fits_max lo hi range in
            let field =
              serialize_offset128-Writes (span 128 min v) (ranged_bits 128 min max) fewest.some_bits
                fewest.at_most
                (omega (
                  arith,
                  fewest.enough,
                  code-le-range 128 (omega arith) min v max fits_min fits_v fits_max lo hi,
                ))
                room in
            Writes-as (Writes-last field v (λ n s1. ok v s1) refl) refl refl
              (rw (ordered, range, above, below) refl)
      ]
