-- ===== src/ReadStream/Decode.antt =====
-- About the shared operations of src/stream.rs on a `ReadStream` that stands before a value's code.
use serialize_rs.Base.{
  ℕ, ◌+◌, ◌-◌, ◌*◌, ◌/◌, ◌%◌, ◌^◌, ◌≤◌, ◌<◌, ◌≡◌, refl, ap, sym, ◌∙◌, arith, Bool, true, none, leb,
  if◌then◌else◌, inl, inr, Bool-cases, cast, add_word, shl, bit_or, le→leb,
}
use native.Mathlib.Decide.{dec_le}
use serialize_rs.Base.Int.{
  ℤ, pos, negsuc, pos_part, neg_part, ◌≤ℤ◌, leb_ℤ, eq_ℤ, IsSigned, to_word, of_word, span, span_lem,
  add_word_lem,
}
use serialize_rs.BitsRequired.{bits_required, bits_required64}
use serialize_rs.Outcome.{ok}
use serialize_rs.Stream.{refuse_if_failed}
use serialize_rs.Stream.Raw.{serialize_dwords, serialize_bits64, serialize_bool}
use serialize_rs.Stream.Dwords.{join_dwords, high-small, high_dword-lt}
use serialize_rs.Stream.Ranged.{serialize_degenerate, decode_offset, serialize_int, serialize_int64}
use serialize_rs.Stream.Code.{ranged_bits, code-le-range, ranged-IsFewest, degenerate_code}
use serialize_rs.ReadStream.{ReadStream, read_stream, serialize_bits}
use serialize_rs.ReadStream.Basic.{gate_fresh}
use serialize_rs.ReadStream.Sees.{Sees, past, Sees-as, Sees-low, Sees-high, serialize_bits-Sees}

same_integer : (a b : ℤ) → pos_part a + neg_part b ≡ pos_part b + neg_part a → a ≡ b
same_integer (pos m) (pos n) h = ap pos (omega arith)
same_integer (pos m) (negsuc n) h = absurd (omega arith)
same_integer (negsuc m) (pos n) h = absurd (omega arith)
same_integer (negsuc m) (negsuc n) h = let e : m ≡ n = omega arith in ap negsuc e

ordered : (min v max : ℤ) → min ≤ℤ v → v ≤ℤ max → leb_ℤ min max ≡ true
ordered min v max lo hi = le→leb _ _ (omega arith)

pub only_value : (min v max : ℤ) → min ≤ℤ v → v ≤ℤ max → eq_ℤ min max ≡ true → min ≡ v
only_value min v max lo hi h = same_integer min v (ground arith)

pub past_none : (s : ReadStream) (bits : ℕ) → bits ≡ 0 → past s bits ≡ s
past_none s bits h =
    ap (past s) h
    ∙ ap (λ (t : ℕ). record s { reader = record (s.reader) { bits_read = t } }) (omega arith)

module _ (w : ℕ) (wide : 1 ≤ w) (min v max : ℤ) (fits_min : IsSigned w min) (fits_v : IsSigned w v)
    (fits_max : IsSigned w max) (lo : min ≤ℤ v) (hi : v ≤ℤ max) where
  -- The distance from the lower bound gives the value back.
  offset_lem : of_word w (add_word w (span w min v) (to_word w min)) ≡ v
  offset_lem = same_integer _ v (
      omega (
        arith,
        span_lem w wide min v fits_min fits_v lo,
        add_word_lem w wide min (span w min v) fits_min,
      ))

  pub decode_offset_lem :
      (checked : Bool) (dest : ℤ) (s : ReadStream)
      → decode_offset (read_stream checked) w dest min (span w min max) (span w min v) s ≡ ok v s
  unfolding decode_offset
  decode_offset_lem checked dest s =
      ground (arith, offset_lem, code-le-range w wide min v max fits_min fits_v fits_max lo hi)

module _ (checked : Bool) {s : ReadStream} where
  pub serialize_degenerate-Sees :
      (dest min : ℤ)
      → s.failed ≡ none
      → serialize_degenerate (read_stream checked) dest min s ≡ ok min s
  unfolding serialize_degenerate refuse_if_failed
  serialize_degenerate-Sees dest min fresh = rw (gate_fresh s fresh) refl

  serialize_dwords-Sees :
      (dest code bits : ℕ)
      → 32 < bits
      → bits ≤ 64
      → code < 2 ^ bits
      → Sees s code bits
      → serialize_dwords (read_stream checked) dest bits s ≡ ok code (past s bits)
  unfolding serialize_dwords
  serialize_dwords-Sees dest code bits lo hi small seen =
      let split =
        Sees-as (code % 2 ^ 32 + 2 ^ 32 * (code / 2 ^ 32)) (32 + (bits - 32)) (omega arith)
          (omega arith) seen in
      let low = Sees-low 32 (bits - 32) (code % 2 ^ 32) (code / 2 ^ 32) (omega arith) split in
      let high = Sees-high 32 (bits - 32) (code % 2 ^ 32) (code / 2 ^ 32) (omega arith) split in
      rw
        (
          serialize_bits-Sees checked _ (code % 2 ^ 32) 32 (omega arith) (omega arith) low,
          serialize_bits-Sees checked _ (code / 2 ^ 32) (bits - 32) (omega arith) (omega arith)
              high,
        )
        (ap (λ (t : ℕ). ok t (past (past s 32) (bits - 32))) joined
          ∙ ap (λ (t : ℕ). ok code (record s { reader = record (s.reader) { bits_read = t } }))
              whole)
    where
      whole : s.reader.bits_read + 32 + (bits - 32) ≡ s.reader.bits_read + bits
      whole = omega arith

      joined : bit_or (shl 64 (code / 2 ^ 32) 32) (code % 2 ^ 32) ≡ code
      joined =
          join_dwords (code % 2 ^ 32) (code / 2 ^ 32) (omega arith)
            (high-small (code / 2 ^ 32) bits hi (high_dword-lt bits code lo small))
          ∙ omega arith

  groups-Sees :
      (dest code bits : ℕ)
      → 1 ≤ bits
      → bits ≤ 64
      → code < 2 ^ bits
      → Sees s code bits
      → (if leb bits 32
          then serialize_bits checked dest bits s
          else serialize_dwords (read_stream checked) dest bits s)
        ≡ ok code (past s bits)
  groups-Sees dest code bits some_bits k small seen = elim (dec_le bits 32) [
    | yes one ↦ ground (arith, serialize_bits-Sees checked dest code bits some_bits one seen)
    | no two ↦ ground (arith, serialize_dwords-Sees dest code bits (omega arith) k small seen)
  ]

  module _ (dest min v max : ℤ) (lo : min ≤ℤ v) (hi : v ≤ℤ max) where
    -- A stream before the code of a ranged 32-bit integer yields the integer, and steps past it.
    pub serialize_int-Sees :
        IsSigned 32 min
        → IsSigned 32 v
        → IsSigned 32 max
        → Sees s (span 32 min v) (ranged_bits 32 min max)
        → serialize_int (read_stream checked) dest min max s
          ≡ ok v (past s (ranged_bits 32 min max))
    unfolding serialize_int bits_required
    serialize_int-Sees fits_min fits_v fits_max seen = elim (Bool-cases (eq_ℤ min max)) [
      | inl same ↦
          let (_, no_bits) =
            degenerate_code 32 (omega arith) min v max fits_min fits_v fits_max lo hi same in
          rw (ordered min v max lo hi, same)
            (serialize_degenerate-Sees dest min seen.fresh
              ∙ ap (λ (z : ℤ). ok z s) (only_value min v max lo hi same)
              ∙ ap (λ (z : ReadStream). ok v z) (sym (past_none s _ no_bits)))
      | inr range ↦
          let fewest =
            ranged-IsFewest 32 (omega arith) min v max fits_min fits_v fits_max lo hi range in
          rw
            (
              ordered min v max lo hi,
              range,
              serialize_bits-Sees checked 0 (span 32 min v) (ranged_bits 32 min max)
                  fewest.some_bits fewest.at_most seen,
            )
            (decode_offset_lem 32 (omega arith) min v max fits_min fits_v fits_max lo hi checked
              dest _)
    ]

    -- The same at 64 bits.
    pub serialize_int64-Sees :
        IsSigned 64 min
        → IsSigned 64 v
        → IsSigned 64 max
        → Sees s (span 64 min v) (ranged_bits 64 min max)
        → serialize_int64 (read_stream checked) dest min max s
          ≡ ok v (past s (ranged_bits 64 min max))
    unfolding serialize_int64 bits_required64
    serialize_int64-Sees fits_min fits_v fits_max seen = elim (Bool-cases (eq_ℤ min max)) [
      | inl same ↦
          let (_, no_bits) =
            degenerate_code 64 (omega arith) min v max fits_min fits_v fits_max lo hi same in
          rw (ordered min v max lo hi, same)
            (serialize_degenerate-Sees dest min seen.fresh
              ∙ ap (λ (z : ℤ). ok z s) (only_value min v max lo hi same)
              ∙ ap (λ (z : ReadStream). ok v z) (sym (past_none s _ no_bits)))
      | inr range ↦
          let fewest =
            ranged-IsFewest 64 (omega arith) min v max fits_min fits_v fits_max lo hi range in
          rw
            (
              ordered min v max lo hi,
              range,
              groups-Sees 0 (span 64 min v) (ranged_bits 64 min max) fewest.some_bits fewest.at_most
                  (omega (
                    arith,
                    fewest.enough,
                    code-le-range 64 (omega arith) min v max fits_min fits_v fits_max lo hi,
                  ))
                  seen,
            )
            (decode_offset_lem 64 (omega arith) min v max fits_min fits_v fits_max lo hi checked
              dest _)
    ]

  pub serialize_bits64-Sees :
      (dest code bits : ℕ)
      → 1 ≤ bits
      → bits ≤ 64
      → code < 2 ^ bits
      → Sees s code bits
      → serialize_bits64 (read_stream checked) dest bits s ≡ ok code (past s bits)
  unfolding serialize_bits64
  serialize_bits64-Sees dest code bits some_bits k small seen = elim (dec_le bits 32) [
    | yes one ↦
        ground (arith, serialize_bits-Sees checked (cast 32 dest) code bits some_bits one seen)
    | no two ↦ ground (arith, serialize_dwords-Sees dest code bits (omega arith) k small seen)
  ]

  pub serialize_bool-Sees :
      (dest v : Bool)
      → Sees s (if v then 1 else 0) 1
      → serialize_bool (read_stream checked) dest s ≡ ok v (past s 1)
  unfolding serialize_bool
  serialize_bool-Sees dest v seen =
      rw (serialize_bits-Sees checked 0 (if v then 1 else 0) 1 (omega arith) (omega arith) seen)
        (ground arith)
