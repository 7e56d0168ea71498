-- ===== src/ReadStream/Spells/Groups.antt =====
-- About `serialize_int128` of src/stream.rs on a `ReadStream`: what an accepted read has consumed.
use serialize_rs.Base.{
  ℕ, ◌+◌, ◌-◌, ◌*◌, ◌^◌, ◌≤◌, ◌<◌, refl, sym, arith, Bool, leb, inl, inr, Bool-cases, leb→le,
  leb→lt, le→leb, pow_mono,
}
use serialize_rs.Base.Int.{ℤ, leb_ℤ, eq_ℤ, IsSigned}
use serialize_rs.BitsRequired.{bits_required128}
use serialize_rs.Error.{value_out_of_range}
use serialize_rs.BitReader.Valid.{IsValid}
use serialize_rs.Stream.Code.{ranged_bits}
use serialize_rs.Stream.Groups.{join_groups_lem, last_group}
use serialize_rs.Stream.Dwords.{high-small}
use serialize_rs.Stream.Wide.{join_groups, serialize_offset128, serialize_int128}
use serialize_rs.Outcome.{ok, attempt}
use serialize_rs.ReadStream.{ReadStream, read_stream, serialize_bits}
use serialize_rs.ReadStream.Ranged.{range-IsFewest}
use serialize_rs.ReadStream.Spells.{
  Spells, Spells-as, Spells-then, Spells-valid, Yields, Yields-attempt, Yields-refused,
}
use serialize_rs.ReadStream.Spells.Basic.{Raw, serialize_bits-Yields}
use serialize_rs.ReadStream.Spells.Ranged.{Coded, decode_offset-Yields, degenerate-Yields}

module _ (checked : Bool) (s : ReadStream) (valid : IsValid s.reader) where
  -- The offset's groups, one to four.
  offset_read :
      (bits a b c d : ℕ) (t : ReadStream)
      → a < 2 ^ 32
      → b < 2 ^ 32
      → c < 2 ^ 32
      → d < 2 ^ 32
      → Spells s (a + 2 ^ 32 * (b + 2 ^ 32 * (c + 2 ^ 32 * d))) bits t
      → Spells s (join_groups a b c d) bits t
  offset_read bits a b c d t ha hb hc hd read =
      Spells-as read (sym (join_groups_lem a b c d ha hb hc hd)) refl

  two_groups-Yields :
      (bits : ℕ)
      → 32 < bits
      → bits ≤ 64
      → Yields
          (λ n t. Spells s n bits t)
          (attempt 0 (serialize_bits checked 0 32 s) λ g0 s1.
            attempt 0
              (serialize_bits checked 0 (bits - 32) s1)
              λ g1 s2. ok (join_groups g0 g1 0 0) s2)
  two_groups-Yields bits lo hi =
      Yields-attempt (Raw 32 32 s) (λ n t. Spells s n bits t) 0 _ _
        (serialize_bits-Yields checked s valid 0 32 (omega arith))
        λ a s1 (_, _, ha, ra).
          Yields-attempt (Raw 32 (bits - 32) s1) (λ n t. Spells s n bits t) 0 _ _
            (serialize_bits-Yields checked s1 (Spells-valid ra) 0 (bits - 32) (omega arith))
            λ b s2 (_, _, hb, rb).
              offset_read bits a b 0 0 s2 ha (high-small b bits hi hb) (omega arith) (omega arith)
                (Spells-as (Spells-then ra rb) (omega arith) (omega arith))

  three_groups-Yields :
      (bits : ℕ)
      → 64 < bits
      → bits ≤ 96
      → Yields
          (λ n t. Spells s n bits t)
          (attempt 0 (serialize_bits checked 0 32 s) λ g0 s1.
            attempt 0 (serialize_bits checked 0 32 s1) λ g1 s2.
              attempt 0
                (serialize_bits checked 0 (bits - 64) s2)
                λ g2 s3. ok (join_groups g0 g1 g2 0) s3)
  three_groups-Yields bits lo hi =
      Yields-attempt (Raw 32 32 s) (λ n t. Spells s n bits t) 0 _ _
        (serialize_bits-Yields checked s valid 0 32 (omega arith))
        λ a s1 (_, _, ha, ra).
          Yields-attempt (Raw 32 32 s1) (λ n t. Spells s n bits t) 0 _ _
            (serialize_bits-Yields checked s1 (Spells-valid ra) 0 32 (omega arith))
            λ b s2 (_, _, hb, rb).
              Yields-attempt (Raw 32 (bits - 64) s2) (λ n t. Spells s n bits t) 0 _ _
                (serialize_bits-Yields checked s2 (Spells-valid rb) 0 (bits - 64) (omega arith))
                λ c s3 (_, _, hc, rc).
                  offset_read bits a b c 0 s3 ha hb (last_group c 64 bits hi hc) (omega arith)
                    (Spells-as (Spells-then ra (Spells-then rb rc)) (omega arith) (omega arith))

  four_groups-Yields :
      (bits : ℕ)
      → 96 < bits
      → bits ≤ 128
      → Yields
          (λ n t. Spells s n bits t)
          (attempt 0 (serialize_bits checked 0 32 s) λ g0 s1.
            attempt 0 (serialize_bits checked 0 32 s1) λ g1 s2.
              attempt 0 (serialize_bits checked 0 32 s2) λ g2 s3.
                attempt 0
                  (serialize_bits checked 0 (bits - 96) s3)
                  λ g3 s4. ok (join_groups g0 g1 g2 g3) s4)
  four_groups-Yields bits lo hi =
      Yields-attempt (Raw 32 32 s) (λ n t. Spells s n bits t) 0 _ _
        (serialize_bits-Yields checked s valid 0 32 (omega arith))
        λ a s1 (_, _, ha, ra).
          Yields-attempt (Raw 32 32 s1) (λ n t. Spells s n bits t) 0 _ _
            (serialize_bits-Yields checked s1 (Spells-valid ra) 0 32 (omega arith))
            λ b s2 (_, _, hb, rb).
              Yields-attempt (Raw 32 32 s2) (λ n t. Spells s n bits t) 0 _ _
                (serialize_bits-Yields checked s2 (Spells-valid rb) 0 32 (omega arith))
                λ c s3 (_, _, hc, rc).
                  Yields-attempt (Raw 32 (bits - 96) s3) (λ n t. Spells s n bits t) 0 _ _
                    (serialize_bits-Yields checked s3 (Spells-valid rc) 0 (bits - 96) (omega arith))
                    λ d s4 (_, _, hd, rd).
                      offset_read bits a b c d s4 ha hb hc (last_group d 96 bits hi hd) (
                        Spells-as (Spells-then ra (Spells-then rb (Spells-then rc rd)))
                          (omega arith) (omega arith))

  pub serialize_offset128-Yields :
      (bits : ℕ)
      → 1 ≤ bits
      → bits ≤ 128
      → Yields (λ n t. Spells s n bits t) (serialize_offset128 (read_stream checked) 0 bits s)
  unfolding serialize_offset128
  serialize_offset128-Yields bits lo hi =
      rw (le→leb 1 bits lo, le→leb bits 128 hi)
        (elim (Bool-cases (leb bits 32)) [
          | inl one ↦ rw one (
              Yields-attempt (Raw 32 bits s) (λ n t. Spells s n bits t) 0 _ _
                (serialize_bits-Yields checked s valid 0 bits (omega (arith, hi)))
                λ a t (_, narrow, small, read).
                  offset_read bits a 0 0 0 t (omega (arith, small, pow_mono {b = 32} narrow))
                    (omega arith) (omega arith) (omega arith) (Spells-as read (omega arith) refl))
          | inr above32 ↦ elim (Bool-cases (leb bits 64)) [
            | inl two ↦
                rw (above32, two)
                  (two_groups-Yields bits (leb→lt bits 32 above32) (leb→le bits 64 two))
            | inr above64 ↦ elim (Bool-cases (leb bits 96)) [
              | inl three ↦
                  rw (above32, above64, three)
                    (three_groups-Yields bits (leb→lt bits 64 above64) (leb→le bits 96 three))
              | inr above96 ↦
                  rw (above32, above64, above96)
                    (four_groups-Yields bits (leb→lt bits 96 above96) hi)
            ]
          ]
        ])

  pub serialize_int128-Yields :
      (dest min max : ℤ)
      → IsSigned 128 min
      → IsSigned 128 max
      → Yields (Coded 128 min max s) (serialize_int128 (read_stream checked) dest min max s)
  unfolding serialize_int128 bits_required128
  serialize_int128-Yields dest min max lo hi = elim (Bool-cases (leb_ℤ min max)) [
    | inr inverted ↦ rw inverted (Yields-refused (Coded 128 min max s) dest value_out_of_range s)
    | inl ordered ↦ elim (Bool-cases (eq_ℤ min max)) [
      | inl same ↦
          rw (ordered, same)
            (degenerate-Yields 128 (omega arith) min max lo hi (leb→le _ _ ordered) checked dest s
              valid same)
      | inr range ↦
          let fewest =
            range-IsFewest checked 128 (omega arith) min max lo hi (leb→le _ _ ordered) range in
          rw (ordered, range)
            (Yields-attempt (λ n t. Spells s n (ranged_bits 128 min max) t) (Coded 128 min max s)
              dest _ _
              (serialize_offset128-Yields (ranged_bits 128 min max) fewest.some_bits fewest.at_most)
              λ n t read.
                decode_offset-Yields 128 (omega arith) min max lo hi (leb→le _ _ ordered) checked
                  dest n s t read)
    ]
  ]
