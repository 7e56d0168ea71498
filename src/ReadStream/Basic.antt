-- ===== src/ReadStream/Basic.antt =====
-- About the operations that src/read_stream.rs implements itself: bits, align, bytes.
use serialize_rs.Base.{
  ℕ, ◌+◌, ◌*◌, ◌/◌, ◌%◌, ◌^◌, ◌≤◌, ◌<◌, ◌≡◌, refl, arith, Bool, false, ◌||◌, none, some, List,
  length, ltb, ◌==◌, inl, inr, Bool-cases, pow_pos,
}
use native.Mathlib.Nat.{mod-lt}
use serialize_rs.Error.{Error, past_end, nonzero_padding}
use serialize_rs.Bytes.{IsBytes}
use serialize_rs.Outcome.{ok, err, attempt}
use serialize_rs.BitReader
use serialize_rs.BitReader.{
  BitReader, would_read_past_end, read_bits, read_align, read_byte_slice, bits_remaining,
}
use serialize_rs.BitReader.Valid.{IsValid, field, advance, advance-IsValid}
use serialize_rs.BitReader.Extract.{read_bits-Reads, read_align_lem}
use serialize_rs.BitReader.Slice.{Slices, read_byte_slice-Slices}
use serialize_rs.ReadStream.{
  ReadStream, serialize_bits, serialize_align, serialize_bytes, refuses, refuse_if_latched,
  bad_width, latch,
}
use serialize_rs.ReadStream.Obligations.{Follows, Obeys, Obeys-after, Obeys-attempt, latch-Obeys}

pub field-lt : (r : BitReader) (bits : ℕ) → field r bits < 2 ^ bits
unfolding field
field-lt r bits = mod-lt _ (pow_pos bits)

pub moved :
    {s : ReadStream} (bits : ℕ)
    → IsValid s.reader
    → s.reader.bits_read + bits ≤ s.reader.num_bits
    → Follows s (record s { reader = advance s.reader bits })
moved bits v room = record {
  valid = advance-IsValid bits v room;
  forward = omega arith;
  same_size = refl;
  same_buffer = refl;
}

-- A refusal of the stream's own: nothing of the operation's destination is written.
pub refusing :
    {A : Type 0} (P : A → ReadStream → Type 0) (dest : A) (error : Error) (s : ReadStream)
    → IsValid s.reader
    → Obeys P dest s (attempt dest (latch error s) (λ _ s1. ok dest s1))
refusing P dest error s v =
    Obeys-attempt (λ _ _. ⊥) P dest tt s (latch error s) _ (latch-Obeys (λ _ _. ⊥) error s v)
      (λ _ _ h. absurd h)

pub gate_fresh : (s : ReadStream) → s.failed ≡ none → refuse_if_latched s ≡ ok tt s
unfolding refuse_if_latched
gate_fresh s h = ground (arith, h)

pub gate_failed :
    (s : ReadStream) (first : Error) → s.failed ≡ some first → refuse_if_latched s ≡ err first tt s
unfolding refuse_if_latched
gate_failed s first h = ground (arith, h)

module _ (checked : Bool) where
  pub accepted_bits :
      (s : ReadStream) (bits : ℕ)
      → refuses s bits || bad_width bits ≡ false
      → bits < 2 ^ 32
      → (s.failed ≡ none)
        × (1 ≤ bits)
        × (bits ≤ 32)
        × (s.reader.bits_read + bits ≤ s.reader.num_bits)
  unfolding refuses would_read_past_end
  accepted_bits s bits h word = ground arith

  -- `ReadStream::serialize_bits` with a valid reader and any width that a `u32` holds, in either
  -- build: no panic; a value that is accepted is below 2 to the width, from a stream that had
  -- not failed; a refusal leaves the destination as it was and latches the error returned; a
  -- stream that had failed refuses for its first reason and does not change; the reader stays
  -- valid over the same packet and never moves back.
  pub serialize_bits-Obeys :
      (dest bits : ℕ) (s : ReadStream)
      → IsValid s.reader
      → bits < 2 ^ 32
      → Obeys (λ n _. n < 2 ^ bits) dest s (serialize_bits checked dest bits s)
  unfolding serialize_bits
  serialize_bits-Obeys dest bits s v word = elim (Bool-cases (refuses s bits || bad_width bits)) [
    | inl bad ↦ rw bad (refusing (λ n _. n < 2 ^ bits) dest _ s v)
    | inr good ↦
        let (fresh, lo, hi, room) = accepted_bits s bits good word in
        rw (good, (read_bits-Reads checked v bits lo hi room).0)
          (record {
            value = field-lt s.reader bits;
            was_fresh = fresh;
            is_fresh = fresh;
            follows = moved bits v room;
          })
  ]

  pub no_refusal :
      (s : ReadStream) (bits : ℕ)
      → refuses s bits ≡ false
      → (s.failed ≡ none) × (s.reader.bits_read + bits ≤ s.reader.num_bits)
  unfolding refuses would_read_past_end
  no_refusal s bits h = ground arith

  -- `ReadStream::serialize_align` with a valid reader, in either build: no panic; an align that
  -- is accepted leaves a stream that had not failed at a byte boundary; a refusal latches the
  -- error returned; a stream that had failed refuses for its first reason and does not change;
  -- the reader stays valid over the same packet and never moves back.
  pub serialize_align-Obeys :
      (s : ReadStream)
      → IsValid s.reader
      → Obeys (λ _ s'. s'.reader.bits_read % 8 ≡ 0) tt s (serialize_align checked s)
  unfolding serialize_align
  serialize_align-Obeys s v = elim (Bool-cases (refuses s (BitReader.align_bits s.reader))) [
    | inl bad ↦ rw bad (latch-Obeys (λ _ s'. s'.reader.bits_read % 8 ≡ 0) _ s v)
    | inr good ↦
        let (fresh, room) = no_refusal s _ good in
        let (returns, valid, aligned) = read_align_lem checked v in
        let s1 = record s { reader = advance s.reader (BitReader.align_bits s.reader) } in
        rw (good, returns)
          (elim (Bool-cases (field s.reader (BitReader.align_bits s.reader) == 0)) [
            | inl zeros ↦ rw zeros (record {
              value = aligned;
              was_fresh = fresh;
              is_fresh = fresh;
              follows = moved (BitReader.align_bits s.reader) v room;
            })
            | inr ones ↦ rw ones (
                Obeys-after (λ _ s'. s'.reader.bits_read % 8 ≡ 0) tt s s1 (latch nonzero_padding s1)
                  fresh (moved (BitReader.align_bits s.reader) v room)
                  (latch-Obeys (λ _ s'. s'.reader.bits_read % 8 ≡ 0) nonzero_padding s1 valid))
          ])
  ]

  -- `ReadStream::serialize_bytes` with a valid reader and a destination of any length, in either
  -- build: no panic; what is accepted are as many bytes as the destination holds, from a stream
  -- that had not failed; a refusal leaves the destination as it was and latches the error
  -- returned; a stream that had failed refuses for its first reason and does not change; the
  -- reader stays valid over the same packet and never moves back.
  pub serialize_bytes-Obeys :
      (dest : List ℕ) (s : ReadStream)
      → IsValid s.reader
      → Obeys
          (λ found _. (length found ≡ length dest) × IsBytes found)
          dest
          s
          (serialize_bytes checked dest s)
  unfolding serialize_bytes
  serialize_bytes-Obeys dest s v =
      Obeys-attempt (λ _ s'. s'.reader.bits_read % 8 ≡ 0) filled dest tt s
        (serialize_align checked s) _ (serialize_align-Obeys s v)
        λ _ s1 aligned v1 fresh.
          elim (Bool-cases (ltb (bits_remaining s1.reader / 8) (length dest))) [
            | inl short ↦ rw short (refusing filled dest past_end s1 v1)
            | inr long ↦
                let room = enough s1 v1 long in
                let found : Slices s1.reader (length dest)
                    (read_byte_slice checked s1.reader (length dest)) =
                  read_byte_slice-Slices checked (length dest) v1 aligned room in
                rw (long, found.returns)
                  (record {
                    value = (found.width, found.bytes);
                    was_fresh = fresh;
                    is_fresh = fresh;
                    follows = moved (8 * length dest) v1 room;
                  })
          ]
    where
      filled : List ℕ → ReadStream → Type 0
      filled found _ = (length found ≡ length dest) × IsBytes found

      enough :
          (s1 : ReadStream)
          → IsValid s1.reader
          → ltb (bits_remaining s1.reader / 8) (length dest) ≡ false
          → s1.reader.bits_read + 8 * length dest ≤ s1.reader.num_bits
      enough s1 v1 h = unfold bits_remaining in ground arith
