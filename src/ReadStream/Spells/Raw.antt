-- ===== src/ReadStream/Spells/Raw.antt =====
-- About the raw fields of src/stream.rs on a `ReadStream`: what an accepted read has
-- consumed.
use serialize_rs.Base.{
  ℕ, ◌-◌, ◌≤◌, ◌<◌, refl, sym, arith, Bool, leb, ◌&&◌, if◌then◌else◌, inl, inr, Bool-cases,
}
use serialize_rs.Error.{value_out_of_range}
use serialize_rs.BitReader.Valid.{IsValid}
use serialize_rs.Stream.Raw.{serialize_dwords, serialize_bits64, serialize_bool}
use serialize_rs.Stream.Dwords.{join_dwords, high-small, two_dwords-lt}
use serialize_rs.ReadStream.{ReadStream, read_stream}
use serialize_rs.ReadStream.Spells.{
  Spells, Spells-as, Spells-then, Spells-valid, Yields, Yields-attempt, Yields-refused,
}
use serialize_rs.ReadStream.Spells.Basic.{Raw, serialize_bits-Yields}

module _ (checked : Bool) (s : ReadStream) (valid : IsValid s.reader) where
  pub serialize_dwords-Yields :
      (dest bits : ℕ)
      → 32 < bits
      → bits ≤ 64
      → Yields (Raw 64 bits s) (serialize_dwords (read_stream checked) dest bits s)
  unfolding serialize_dwords
  serialize_dwords-Yields dest bits lo hi =
      Yields-attempt (Raw 32 32 s) (Raw 64 bits s) dest _ _
        (serialize_bits-Yields checked s valid _ 32 (omega arith))
        λ n s1 (_, _, small, low).
          Yields-attempt (Raw 32 (bits - 32) s1) (Raw 64 bits s) dest _ _
            (serialize_bits-Yields checked s1 (Spells-valid low) _ (bits - 32) (omega arith))
            λ m s2 (_, _, small_high, high).
              let joined = join_dwords n m small (high-small m bits hi small_high) in
              (
                omega arith,
                hi,
                omega (arith, joined, two_dwords-lt bits n m lo small small_high),
                Spells-as (Spells-then low high) (sym joined) (omega arith),
              )

  pub serialize_bits64-Yields :
      (dest bits : ℕ) → Yields (Raw 64 bits s) (serialize_bits64 (read_stream checked) dest bits s)
  unfolding serialize_bits64
  serialize_bits64-Yields dest bits = elim (Bool-cases (leb 1 bits && leb bits 64)) [
    | inr bad ↦ rw bad (Yields-refused (Raw 64 bits s) dest value_out_of_range s)
    | inl good ↦ rw good (elim (Bool-cases (leb bits 32)) [
      | inl one ↦ rw one (
          Yields-attempt (Raw 32 bits s) (Raw 64 bits s) dest _ _
            (serialize_bits-Yields checked s valid _ bits (ground arith))
            λ n s1 (lo, hi, small, read). (lo, omega arith, small, read))
      | inr two ↦ rw two (
          Yields-attempt (Raw 64 bits s) (Raw 64 bits s) dest _ _
            (serialize_dwords-Yields dest bits (ground arith) (ground arith)) λ n s1 found. found)
    ])
  ]

  pub serialize_bool-Yields :
      (dest : Bool)
      → Yields
          (λ v t. Spells s (if v then 1 else 0) 1 t)
          (serialize_bool (read_stream checked) dest s)
  unfolding serialize_bool
  serialize_bool-Yields dest =
      Yields-attempt (Raw 32 1 s) (λ v t. Spells s (if v then 1 else 0) 1 t) dest _ _
        (serialize_bits-Yields checked s valid _ 1 (omega arith))
        λ n s1 (_, _, small, read). Spells-as read (ground arith) refl
