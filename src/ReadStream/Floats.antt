-- ===== src/ReadStream/Floats.antt =====
-- About `serialize_f32` and `serialize_f64` of src/stream.rs on a `ReadStream`, over any bytes.
use serialize_rs.Base.{
  ℕ, ◌^◌, ◌<◌, ◌≡◌, arith, Bool, true, none, if◌then◌else◌, inl, inr, Bool-cases,
}
use serialize_rs.Error.{non_finite_float}
use serialize_rs.Outcome.{ok, attempt}
use serialize_rs.BitReader.Valid.{IsValid}
use serialize_rs.Stream.Wide.{
  serialize_f32, serialize_f64, float_bits_are_finite, double_bits_are_finite,
}
use serialize_rs.ReadStream.{ReadStream, read_stream}
use serialize_rs.ReadStream.Obligations.{Obeys, Obeys-attempt}
use serialize_rs.ReadStream.Basic.{refusing, serialize_bits-Obeys}
use serialize_rs.ReadStream.Raw.{Below, accepting, serialize_bits64-Obeys}

abbrev pub Finite32 : ℕ → ReadStream → Type 0
Finite32 n _ = (n < 2 ^ 32) × (float_bits_are_finite n ≡ true)

abbrev pub Finite64 : ℕ → ReadStream → Type 0
Finite64 n _ = (n < 2 ^ 64) × (double_bits_are_finite n ≡ true)

module _ (checked : Bool) where
  pattern32-Obeys :
      (dest n : ℕ) (s : ReadStream)
      → IsValid s.reader
      → s.failed ≡ none
      → n < 2 ^ 32
      → Obeys Finite32 dest s (
          if float_bits_are_finite n
          then ok n s
          else attempt dest ((read_stream checked).fail non_finite_float s) (λ _ s1. ok dest s1))
  pattern32-Obeys dest n s valid fresh small = elim (Bool-cases (float_bits_are_finite n)) [
    | inl finite ↦ rw finite (accepting Finite32 dest n s valid fresh (small, finite))
    | inr infinite ↦ rw infinite (refusing Finite32 dest non_finite_float s valid)
  ]

  -- `serialize_f32` on a `ReadStream` with a valid reader, in either build: no panic; a bit
  -- pattern that is accepted is of 32 bits and finite (its exponent is not all ones), from a
  -- stream that had not failed; a refusal leaves the destination as it was and latches the error
  -- returned; a stream that had failed refuses for its first reason and does not change; the
  -- reader stays valid over the same packet and never moves back.
  pub serialize_f32-Obeys :
      (dest : ℕ) (s : ReadStream)
      → IsValid s.reader
      → Obeys Finite32 dest s (serialize_f32 (read_stream checked) dest s)
  unfolding serialize_f32
  serialize_f32-Obeys dest s valid =
      Obeys-attempt (Below 32) Finite32 dest 0 s _ _
        (serialize_bits-Obeys checked 0 32 s valid (omega arith))
        λ n s1 small valid1 fresh. pattern32-Obeys dest n s1 valid1 fresh small

  pattern64-Obeys :
      (dest n : ℕ) (s : ReadStream)
      → IsValid s.reader
      → s.failed ≡ none
      → n < 2 ^ 64
      → Obeys Finite64 dest s (
          if double_bits_are_finite n
          then ok n s
          else attempt dest ((read_stream checked).fail non_finite_float s) (λ _ s1. ok dest s1))
  pattern64-Obeys dest n s valid fresh small = elim (Bool-cases (double_bits_are_finite n)) [
    | inl finite ↦ rw finite (accepting Finite64 dest n s valid fresh (small, finite))
    | inr infinite ↦ rw infinite (refusing Finite64 dest non_finite_float s valid)
  ]

  -- `serialize_f64` on a `ReadStream` with a valid reader, in either build: no panic; a bit
  -- pattern that is accepted is of 64 bits and finite (its exponent is not all ones), from a
  -- stream that had not failed; a refusal, also between the two groups, leaves the destination
  -- as it was and latches the error returned; a stream that had failed refuses for its first
  -- reason and does not change; the reader stays valid over the same packet and never moves
  -- back.
  pub serialize_f64-Obeys :
      (dest : ℕ) (s : ReadStream)
      → IsValid s.reader
      → Obeys Finite64 dest s (serialize_f64 (read_stream checked) dest s)
  unfolding serialize_f64
  serialize_f64-Obeys dest s valid =
      Obeys-attempt (Below 64) Finite64 dest 0 s _ _ (serialize_bits64-Obeys checked 0 64 s valid)
        λ n s1 small valid1 fresh. pattern64-Obeys dest n s1 valid1 fresh small
