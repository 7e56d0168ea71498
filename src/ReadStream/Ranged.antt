-- ===== src/ReadStream/Ranged.antt =====
-- About the ranged integers of src/stream.rs on a `ReadStream`, over any bytes.
use serialize_rs.Base.{
  ℕ, ◌≤◌, ◌<◌, ◌≡◌, refl, arith, Bool, false, none, ltb, leb, if◌then◌else◌, inl, inr, Bool-cases,
  Option-cases, add_word, leb→le, leb→lt,
}
use native.Mathlib.Nat.{le_refl}
use serialize_rs.Base.Int.{
  ℤ, ◌≤ℤ◌, leb_ℤ, eq_ℤ, IsSigned, to_word, of_word, span, span_lem, span-lt, add_word_lem,
}
use serialize_rs.BitsRequired.{
  bits_required_word, bits_required, bits_required64, IsFewest, bits_required-IsFewest,
}
use serialize_rs.Error.{value_out_of_range}
use serialize_rs.BitReader.Valid.{IsValid}
use serialize_rs.Stream.{refuse_if_failed}
use serialize_rs.Stream.Raw.{serialize_dwords}
use serialize_rs.Stream.Ranged.{serialize_degenerate, decode_offset, serialize_int, serialize_int64}
use serialize_rs.ReadStream.{ReadStream, read_stream, serialize_bits}
use serialize_rs.ReadStream.Obligations.{Obeys, Obeys-attempt, Follows-refl}
use serialize_rs.ReadStream.Basic.{refusing, gate_fresh, gate_failed, serialize_bits-Obeys}
use serialize_rs.ReadStream.Raw.{accepting, Below, serialize_dwords-Obeys}

abbrev pub Between : ℤ → ℤ → ℤ → ReadStream → Type 0
Between min max z _ = (min ≤ℤ z) × (z ≤ℤ max)

module _ (checked : Bool) where
  pub gate-Obeys :
      (s : ReadStream)
      → IsValid s.reader
      → Obeys (λ _ _. Unit {0}) tt s (refuse_if_failed (read_stream checked) s)
  unfolding refuse_if_failed
  gate-Obeys s v = elim (Option-cases s.failed) [
    | inl fresh ↦ rw (gate_fresh s fresh) (accepting (λ _ _. Unit {0}) tt tt s v fresh tt)
    | inr (first, failed) ↦ rw (gate_failed s first failed) (record {
      unwritten = refl;
      latched = failed;
      follows = Follows-refl v;
      terminal = λ e h. (ground arith, refl);
    })
  ]

  module _ (w : ℕ) (wide : 1 ≤ w) (min max : ℤ) (lo : IsSigned w min) (hi : IsSigned w max)
      (ordered : min ≤ℤ max) where
    -- An offset in the range stands for an integer between the bounds.
    offset_between :
        (n : ℕ)
        → n ≤ span w min max
        → (min ≤ℤ of_word w (add_word w n (to_word w min)))
          × (of_word w (add_word w n (to_word w min)) ≤ℤ max)
    offset_between n h =
        omega (arith, span_lem w wide min max lo hi ordered, add_word_lem w wide min n lo)

    pub decode_offset-Obeys :
        (dest : ℤ) (n : ℕ) (s : ReadStream)
        → IsValid s.reader
        → s.failed ≡ none
        → Obeys
            (Between min max)
            dest
            s
            (decode_offset (read_stream checked) w dest min (span w min max) n s)
    unfolding decode_offset
    decode_offset-Obeys dest n s v fresh = elim (Bool-cases (ltb (span w min max) n)) [
      | inl above ↦ rw above (refusing (Between min max) dest value_out_of_range s v)
      | inr inside ↦
          rw inside (accepting (Between min max) dest _ s v fresh (offset_between n (ground arith)))
    ]

    -- A range that is not degenerate costs at least a bit.
    range_pos : eq_ℤ min max ≡ false → 0 < span w min max
    range_pos h = ground (arith, span_lem w wide min max lo hi ordered)

    pub range-IsFewest :
        eq_ℤ min max ≡ false → IsFewest w (span w min max) (bits_required_word w 0 (span w min max))
    range-IsFewest h =
        bits_required-IsFewest w (span w min max) (range_pos h) (span-lt w wide min max)

  pub serialize_degenerate-Obeys :
      (dest min max : ℤ) (s : ReadStream)
      → IsValid s.reader
      → min ≤ℤ max
      → Obeys (Between min max) dest s (serialize_degenerate (read_stream checked) dest min s)
  unfolding serialize_degenerate
  serialize_degenerate-Obeys dest min max s v ordered =
      Obeys-attempt (λ _ _. Unit {0}) (Between min max) dest tt s _ _ (gate-Obeys s v)
        λ _ s1 _ v1 fresh. accepting (Between min max) dest min s1 v1 fresh (le_refl _, ordered)

  -- One group of at most 32 bits, or two.
  groups-Obeys :
      (bits : ℕ) (s : ReadStream)
      → IsValid s.reader
      → bits ≤ 64
      → Obeys (Below bits) 0 s (
          if leb bits 32
          then serialize_bits checked 0 bits s
          else serialize_dwords (read_stream checked) 0 bits s)
  groups-Obeys bits s v hi = elim (Bool-cases (leb bits 32)) [
    | inl one ↦ rw one (serialize_bits-Obeys checked 0 bits s v (ground arith))
    | inr two ↦ rw two (serialize_dwords-Obeys checked 0 bits s v (leb→lt bits 32 two) hi)
  ]

  -- `serialize_int` on a `ReadStream` with a valid reader, for any two bounds of `i32`, in
  -- either build: it does not panic; it accepts only if the stream had not failed, and then the
  -- value lies between the bounds; a refusal leaves the destination as it was and latches the
  -- error returned; a stream that had failed refuses for its first reason and does not change;
  -- and the reader stays valid over the same packet and never moves back.
  pub serialize_int-Obeys :
      (dest min max : ℤ) (s : ReadStream)
      → IsSigned 32 min
      → IsSigned 32 max
      → IsValid s.reader
      → Obeys (Between min max) dest s (serialize_int (read_stream checked) dest min max s)
  unfolding serialize_int bits_required
  serialize_int-Obeys dest min max s lo hi v = elim (Bool-cases (leb_ℤ min max)) [
    | inr inverted ↦ rw inverted (refusing (Between min max) dest value_out_of_range s v)
    | inl ordered ↦ elim (Bool-cases (eq_ℤ min max)) [
      | inl same ↦
          rw (ordered, same) (serialize_degenerate-Obeys dest min max s v (leb→le _ _ ordered))
      | inr range ↦
          let fewest = range-IsFewest 32 (omega arith) min max lo hi (leb→le _ _ ordered) range in
          rw (ordered, range)
            (Obeys-attempt (Below (bits_required 0 (span 32 min max))) (Between min max) dest 0 s _
              _ (serialize_bits-Obeys checked 0 _ s v (omega (arith, fewest.at_most)))
              λ n s1 _ v1 fresh.
                decode_offset-Obeys 32 (omega arith) min max lo hi (leb→le _ _ ordered) dest n s1 v1
                  fresh)
    ]
  ]

  -- `serialize_int64` on a `ReadStream` with a valid reader, for any two bounds of `i64`, in
  -- either build: no panic; it accepts only if the stream had not failed, and then the value
  -- lies between the bounds; a refusal, also of the second of two groups, leaves the destination
  -- as it was and latches the error returned; a stream that had failed refuses for its first
  -- reason and does not change; the reader stays valid over the same packet and never moves
  -- back.
  pub serialize_int64-Obeys :
      (dest min max : ℤ) (s : ReadStream)
      → IsSigned 64 min
      → IsSigned 64 max
      → IsValid s.reader
      → Obeys (Between min max) dest s (serialize_int64 (read_stream checked) dest min max s)
  unfolding serialize_int64 bits_required64
  serialize_int64-Obeys dest min max s lo hi v = elim (Bool-cases (leb_ℤ min max)) [
    | inr inverted ↦ rw inverted (refusing (Between min max) dest value_out_of_range s v)
    | inl ordered ↦ elim (Bool-cases (eq_ℤ min max)) [
      | inl same ↦
          rw (ordered, same) (serialize_degenerate-Obeys dest min max s v (leb→le _ _ ordered))
      | inr range ↦
          let fewest = range-IsFewest 64 (omega arith) min max lo hi (leb→le _ _ ordered) range in
          rw (ordered, range)
            (Obeys-attempt (Below (bits_required64 0 (span 64 min max))) (Between min max) dest 0 s
              _ _ (groups-Obeys (bits_required64 0 (span 64 min max)) s v fewest.at_most)
              λ n s1 _ v1 fresh.
                decode_offset-Obeys 64 (omega arith) min max lo hi (leb→le _ _ ordered) dest n s1 v1
                  fresh)
    ]
  ]
