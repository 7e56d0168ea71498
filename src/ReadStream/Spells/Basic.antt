-- ===== src/ReadStream/Spells/Basic.antt =====
-- About bits and aligns of src/read_stream.rs: what an accepted read has consumed.
use serialize_rs.Base.{ℕ, ◌^◌, ◌≤◌, ◌<◌, refl, arith, Bool, ◌||◌, ◌==◌, inl, inr, Bool-cases}
use serialize_rs.BitReader
use serialize_rs.BitReader.Valid.{IsValid, field}
use serialize_rs.BitReader.Extract.{read_bits-Reads, read_align_lem}
use serialize_rs.Stream.StringCode.{pad_bits}
use serialize_rs.ReadStream.{
  ReadStream, serialize_bits, serialize_align, refuses, bad_width, latch, refuse_bits,
}
use serialize_rs.ReadStream.Basic.{field-lt, accepted_bits, no_refusal}
use serialize_rs.ReadStream.Spells.{Spells, Yields}

-- A raw field, and its width as the reader takes it.
abbrev pub Raw : ℕ → ℕ → ReadStream → ℕ → ReadStream → Type 0
Raw most bits s n t = (1 ≤ bits) × (bits ≤ most) × (n < 2 ^ bits) × Spells s n bits t

module _ (checked : Bool) (s : ReadStream) (valid : IsValid s.reader) where
  pub serialize_bits-Yields :
      (dest bits : ℕ) → bits < 2 ^ 32 → Yields (Raw 32 bits s) (serialize_bits checked dest bits s)
  unfolding serialize_bits refuse_bits latch
  serialize_bits-Yields dest bits word = elim (Bool-cases (refuses s bits || bad_width bits)) [
    | inl bad ↦ rw bad tt
    | inr good ↦
        let (fresh, lo, hi, room) = accepted_bits checked s bits good word in
        rw (good, (read_bits-Reads checked valid bits lo hi room).0)
          (
            lo,
            hi,
            field-lt s.reader bits,
            record {
              seen = record { fresh = fresh; valid = valid; room = room; spelled = refl };
              lands = refl;
            },
          )
  ]

  pub serialize_align-Yields :
      Yields (λ _ t. Spells s 0 (pad_bits s.reader.bits_read) t) (serialize_align checked s)
  unfolding serialize_align latch BitReader.align_bits
  serialize_align-Yields = elim (Bool-cases (refuses s (BitReader.align_bits s.reader))) [
    | inl bad ↦ rw bad tt
    | inr good ↦
        let (fresh, room) = no_refusal checked s _ good in
        rw (good, (read_align_lem checked valid).0)
          (elim (Bool-cases (field s.reader (BitReader.align_bits s.reader) == 0)) [
            | inr ones ↦ rw ones tt
            | inl zeros ↦ rw zeros (record {
              seen = record {
                fresh = fresh;
                valid = valid;
                room = room;
                spelled = ground (arith, zeros);
              };
              lands = refl;
            })
          ])
  ]
