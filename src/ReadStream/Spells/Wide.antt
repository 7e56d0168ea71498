-- ===== src/ReadStream/Spells/Wide.antt =====
-- About the 128-bit values and the floats of src/stream.rs on a `ReadStream`: what an accepted read
-- has consumed.
use serialize_rs.Base.{
  ℕ, ◌+◌, ◌*◌, ◌^◌, ◌<◌, ◌≡◌, refl, ap, sym, arith, Bool, true, inl, inr, Bool-cases, shl, bit_or,
  bit_or_below,
}
use serialize_rs.Error.{non_finite_float}
use serialize_rs.BitReader.Valid.{IsValid}
use serialize_rs.Stream.Wide.{
  serialize_u128, serialize_f32, serialize_f64, float_bits_are_finite, double_bits_are_finite,
}
use serialize_rs.ReadStream.{ReadStream, read_stream}
use serialize_rs.ReadStream.Spells.{
  Spells, Spells-as, Spells-then, Spells-valid, Yields, Yields-attempt, Yields-refused,
}
use serialize_rs.ReadStream.Spells.Basic.{Raw, serialize_bits-Yields}
use serialize_rs.ReadStream.Spells.Raw.{serialize_bits64-Yields}

module _ (checked : Bool) (s : ReadStream) (valid : IsValid s.reader) where
  pub serialize_u128-Yields :
      (dest : ℕ)
      → Yields
          (λ n t. (n < 2 ^ 128) × Spells s n 128 t)
          (serialize_u128 (read_stream checked) dest s)
  unfolding serialize_u128
  serialize_u128-Yields dest =
      Yields-attempt (Raw 64 64 s) found dest _ _ (serialize_bits64-Yields checked s valid _ 64)
        λ lo s1 (_, _, small_low, low).
          Yields-attempt (Raw 64 64 s1) found dest _ _
            (serialize_bits64-Yields checked s1 (Spells-valid low) _ 64)
            λ hi s2 (_, _, small_high, high). (
              omega (arith, joined lo hi small_low small_high),
              Spells-as (Spells-then low high) (sym (joined lo hi small_low small_high)) refl,
            )
    where
      found : ℕ → ReadStream → Type 0
      found n t = (n < 2 ^ 128) × Spells s n 128 t

      joined :
          (lo hi : ℕ) → lo < 2 ^ 64 → hi < 2 ^ 64 → bit_or (shl 128 hi 64) lo ≡ lo + 2 ^ 64 * hi
      joined lo hi p q = omega (arith, ap (λ (t : ℕ). bit_or t lo) shifted, bit_or_below 64 hi lo p)
        where
          shifted : shl 128 hi 64 ≡ 2 ^ 64 * hi
          shifted = omega arith

  abbrev pub Float32 : ℕ → ReadStream → Type 0
  Float32 n t = (n < 2 ^ 32) × (float_bits_are_finite n ≡ true) × Spells s n 32 t

  pub serialize_f32-Yields :
      (dest : ℕ) → Yields Float32 (serialize_f32 (read_stream checked) dest s)
  unfolding serialize_f32
  serialize_f32-Yields dest =
      Yields-attempt (Raw 32 32 s) Float32 dest _ _
        (serialize_bits-Yields checked s valid 0 32 (omega arith))
        λ n s1 (_, _, small, read). elim (Bool-cases (float_bits_are_finite n)) [
          | inl finite ↦ rw finite (small, finite, read)
          | inr infinite ↦ rw infinite (Yields-refused Float32 dest non_finite_float s1)
        ]

  abbrev pub Float64 : ℕ → ReadStream → Type 0
  Float64 n t = (n < 2 ^ 64) × (double_bits_are_finite n ≡ true) × Spells s n 64 t

  pub serialize_f64-Yields :
      (dest : ℕ) → Yields Float64 (serialize_f64 (read_stream checked) dest s)
  unfolding serialize_f64
  serialize_f64-Yields dest =
      Yields-attempt (Raw 64 64 s) Float64 dest _ _ (serialize_bits64-Yields checked s valid 0 64)
        λ n s1 (_, _, small, read). elim (Bool-cases (double_bits_are_finite n)) [
          | inl finite ↦ rw finite (small, finite, read)
          | inr infinite ↦ rw infinite (Yields-refused Float64 dest non_finite_float s1)
        ]
