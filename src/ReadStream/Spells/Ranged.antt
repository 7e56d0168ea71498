-- ===== src/ReadStream/Spells/Ranged.antt =====
-- About the ranged integers of src/stream.rs on a `ReadStream`: what an accepted read has consumed.
use serialize_rs.Base.{
  ℕ, ◌+◌, ◌-◌, ◌^◌, ◌≤◌, ◌<◌, ◌≡◌, refl, sym, arith, Bool, true, ltb, leb, if◌then◌else◌, inl, inr,
  Bool-cases, Option-cases, add_word, leb→le,
}
use serialize_rs.Base.Int.{
  ℤ, pos_part, neg_part, ◌≤ℤ◌, leb_ℤ, eq_ℤ, IsSigned, to_word, of_word, span, span_lem,
  add_word_lem,
}
use serialize_rs.BitsRequired.{bits_required, bits_required64}
use serialize_rs.Error.{value_out_of_range}
use serialize_rs.BitReader.Valid.{IsValid}
use serialize_rs.Stream.{refuse_if_failed}
use serialize_rs.Stream.Raw.{serialize_dwords}
use serialize_rs.Stream.Ranged.{serialize_degenerate, decode_offset, serialize_int, serialize_int64}
use serialize_rs.Stream.Code.{ranged_bits, Ranged, degenerate_code}
use serialize_rs.ReadStream.{ReadStream, read_stream, serialize_bits}
use serialize_rs.ReadStream.Basic.{gate_fresh, gate_failed}
use serialize_rs.ReadStream.Ranged.{range-IsFewest}
use serialize_rs.ReadStream.Spells.{
  Spells, Spells-none, Spells-as, Yields, Yields-weaken, Yields-attempt, Yields-refused,
}
use serialize_rs.ReadStream.Spells.Basic.{Raw, serialize_bits-Yields}
use serialize_rs.ReadStream.Spells.Raw.{serialize_dwords-Yields}

-- A value in the range, and its code.
abbrev pub Coded : ℕ → ℤ → ℤ → ReadStream → ℤ → ReadStream → Type 0
Coded w min max s v t = Ranged w min v max × Spells s (span w min v) (ranged_bits w min max) t

module _ (w : ℕ) (wide : 1 ≤ w) (min max : ℤ) (lo : IsSigned w min) (hi : IsSigned w max)
    (ordered : min ≤ℤ max) where
  -- The value that an offset in the range stands for has that offset for its code.
  offset_value :
      (n : ℕ)
      → n ≤ span w min max
      → let v = of_word w (add_word w n (to_word w min)) in Ranged w min v max × (span w min v ≡ n)
  offset_value n small =
      let v = of_word w (add_word w n (to_word w min)) in
      let c : IsSigned w v × (pos_part v + neg_part min ≡ pos_part min + n + neg_part v) =
        add_word_lem w wide min n lo (inside n small) in
      let above : min ≤ℤ v = omega (arith, c.1) in
      let below : v ≤ℤ max = omega (arith, c.1, span_lem w wide min max lo hi ordered) in
      ((lo, c.0, hi, above, below), omega (arith, c.1, span_lem w wide min v lo c.0 above))
    where
      inside : (n : ℕ) → n ≤ span w min max → pos_part min + n < 2 ^ (w - 1) + neg_part min
      inside n small = omega (arith, span_lem w wide min max lo hi ordered)

  pub decode_offset-Yields :
      (checked : Bool) (dest : ℤ) (n : ℕ) (s t : ReadStream)
      → Spells s n (ranged_bits w min max) t
      → Yields
          (Coded w min max s)
          (decode_offset (read_stream checked) w dest min (span w min max) n t)
  unfolding decode_offset
  decode_offset-Yields checked dest n s t read = elim (Bool-cases (ltb (span w min max) n)) [
    | inl above ↦ rw above (Yields-refused (Coded w min max s) dest value_out_of_range t)
    | inr small ↦
        let (in_range, code) = offset_value n (ground (arith, small)) in
        rw small (in_range, Spells-as read (sym code) refl)
  ]

  pub degenerate-Yields :
      (checked : Bool) (dest : ℤ) (s : ReadStream)
      → IsValid s.reader
      → eq_ℤ min max ≡ true
      → Yields (Coded w min max s) (serialize_degenerate (read_stream checked) dest min s)
  unfolding serialize_degenerate refuse_if_failed
  degenerate-Yields checked dest s valid same = elim (Option-cases s.failed) [
    | inl fresh ↦
        let (no_code, no_bits) =
          degenerate_code w wide min min max lo lo hi (omega arith) ordered same in
        rw (gate_fresh s fresh) (
          (lo, lo, hi, omega arith, ordered),
          Spells-as (Spells-none s valid fresh) (sym no_code) (sym no_bits),
        )
    | inr (first, failed) ↦ rw (gate_failed s first failed) tt
  ]

module _ (checked : Bool) (dest min max : ℤ) (s : ReadStream) (valid : IsValid s.reader) where
  pub serialize_int-Yields :
      IsSigned 32 min
      → IsSigned 32 max
      → Yields (Coded 32 min max s) (serialize_int (read_stream checked) dest min max s)
  unfolding serialize_int bits_required
  serialize_int-Yields lo hi = elim (Bool-cases (leb_ℤ min max)) [
    | inr inverted ↦ rw inverted (Yields-refused (Coded 32 min max s) dest value_out_of_range s)
    | inl ordered ↦ elim (Bool-cases (eq_ℤ min max)) [
      | inl same ↦
          rw (ordered, same)
            (degenerate-Yields 32 (omega arith) min max lo hi (leb→le _ _ ordered) checked dest s
              valid same)
      | inr range ↦
          let fewest =
            range-IsFewest checked 32 (omega arith) min max lo hi (leb→le _ _ ordered) range in
          rw (ordered, range)
            (Yields-attempt (Raw 32 (ranged_bits 32 min max) s) (Coded 32 min max s) dest _ _
              (serialize_bits-Yields checked s valid 0 (ranged_bits 32 min max)
                (omega (arith, fewest.at_most)))
              λ n t (_, _, _, read).
                decode_offset-Yields 32 (omega arith) min max lo hi (leb→le _ _ ordered) checked
                  dest n s t read)
    ]
  ]

  groups-Yields :
      (bits : ℕ)
      → bits ≤ 64
      → Yields
          (λ n t. Spells s n bits t)
          (if leb bits 32
            then serialize_bits checked 0 bits s
            else serialize_dwords (read_stream checked) 0 bits s)
  groups-Yields bits most = elim (Bool-cases (leb bits 32)) [
    | inl one ↦ rw one (
        Yields-weaken (Raw 32 bits s) (λ n t. Spells s n bits t) _ (λ n t (_, _, _, read). read)
          (serialize_bits-Yields checked s valid 0 bits (omega arith)))
    | inr two ↦ rw two (
        Yields-weaken (Raw 64 bits s) (λ n t. Spells s n bits t) _ (λ n t (_, _, _, read). read)
          (serialize_dwords-Yields checked s valid 0 bits (ground (arith, two)) most))
  ]

  pub serialize_int64-Yields :
      IsSigned 64 min
      → IsSigned 64 max
      → Yields (Coded 64 min max s) (serialize_int64 (read_stream checked) dest min max s)
  unfolding serialize_int64 bits_required64
  serialize_int64-Yields lo hi = elim (Bool-cases (leb_ℤ min max)) [
    | inr inverted ↦ rw inverted (Yields-refused (Coded 64 min max s) dest value_out_of_range s)
    | inl ordered ↦ elim (Bool-cases (eq_ℤ min max)) [
      | inl same ↦
          rw (ordered, same)
            (degenerate-Yields 64 (omega arith) min max lo hi (leb→le _ _ ordered) checked dest s
              valid same)
      | inr range ↦
          let fewest =
            range-IsFewest checked 64 (omega arith) min max lo hi (leb→le _ _ ordered) range in
          rw (ordered, range)
            (Yields-attempt (λ n t. Spells s n (ranged_bits 64 min max) t) (Coded 64 min max s) dest
              _ _ (groups-Yields (ranged_bits 64 min max) fewest.at_most)
              λ n t read.
                decode_offset-Yields 64 (omega arith) min max lo hi (leb→le _ _ ordered) checked
                  dest n s t read)
    ]
  ]
