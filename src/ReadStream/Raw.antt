-- ===== src/ReadStream/Raw.antt =====
-- About the raw fields of src/stream.rs on a `ReadStream`, over any bytes.
use serialize_rs.Base.{
  ℕ, ◌-◌, ◌^◌, ◌≤◌, ◌<◌, ◌≡◌, arith, Bool, none, leb, ◌==◌, ◌&&◌, not, inl, inr, Bool-cases, shl,
  bit_or,
}
use serialize_rs.Error.{value_out_of_range}
use serialize_rs.Outcome.{ok}
use serialize_rs.BitReader.Valid.{IsValid}
use serialize_rs.Stream.Raw.{serialize_dwords, serialize_bits64, serialize_bool}
use serialize_rs.Stream.Dwords.{join_dwords, high-small, two_dwords-lt}
use serialize_rs.ReadStream.{ReadStream, read_stream}
use serialize_rs.ReadStream.Obligations.{Obeys, Obeys-attempt, Follows-refl}
use serialize_rs.ReadStream.Basic.{refusing, serialize_bits-Obeys}

-- An accepted value that no bits were read for.
pub accepting :
    {A : Type 0} (P : A → ReadStream → Type 0) (dest a : A) (s : ReadStream)
    → IsValid s.reader
    → s.failed ≡ none
    → P a s
    → Obeys P dest s (ok a s)
accepting P dest a s v fresh h = record {
  value = h;
  was_fresh = fresh;
  is_fresh = fresh;
  follows = Follows-refl v;
}

abbrev pub Below : ℕ → ℕ → ReadStream → Type 0
Below bits n _ = n < 2 ^ bits

two_dwords :
    (bits lo hi : ℕ)
    → 32 < bits
    → bits ≤ 64
    → lo < 2 ^ 32
    → hi < 2 ^ (bits - 32)
    → bit_or (shl 64 hi 32) lo < 2 ^ bits
two_dwords bits lo hi h k p q =
    omega (arith, join_dwords lo hi p (high-small hi bits k q), two_dwords-lt bits lo hi h p q)

module _ (checked : Bool) where
  pub serialize_dwords-Obeys :
      (dest bits : ℕ) (s : ReadStream)
      → IsValid s.reader
      → 32 < bits
      → bits ≤ 64
      → Obeys (Below bits) dest s (serialize_dwords (read_stream checked) dest bits s)
  unfolding serialize_dwords
  serialize_dwords-Obeys dest bits s v lo hi =
      Obeys-attempt (Below 32) (Below bits) dest _ s _ _
        (serialize_bits-Obeys checked _ 32 s v (omega arith))
        λ n s1 hn v1 f1.
          Obeys-attempt (Below (bits - 32)) (Below bits) dest _ s1 _ _
            (serialize_bits-Obeys checked _ (bits - 32) s1 v1 (omega arith))
            λ m s2 hm v2 f2.
              accepting (Below bits) dest (bit_or (shl 64 m 32) n) s2 v2 f2
                (two_dwords bits n m lo hi hn hm)

  -- `serialize_bits64` on a `ReadStream` with a valid reader and any width, in either build: no
  -- panic; a value that is accepted is below 2 to the width, from a stream that had not failed;
  -- a refusal leaves the destination as it was, also between the two groups, and latches the
  -- error returned; a stream that had failed refuses for its first reason and does not change;
  -- the reader stays valid over the same packet and never moves back.
  pub serialize_bits64-Obeys :
      (dest bits : ℕ) (s : ReadStream)
      → IsValid s.reader
      → Obeys (Below bits) dest s (serialize_bits64 (read_stream checked) dest bits s)
  unfolding serialize_bits64
  serialize_bits64-Obeys dest bits s v = elim (Bool-cases (leb 1 bits && leb bits 64)) [
    | inr bad ↦ rw bad (refusing (Below bits) dest value_out_of_range s v)
    | inl good ↦ rw good (elim (Bool-cases (leb bits 32)) [
      | inl one ↦ rw one (
          Obeys-attempt (Below bits) (Below bits) dest _ s _ _
            (serialize_bits-Obeys checked _ bits s v (ground arith))
            λ n s1 hn v1 fresh. accepting (Below bits) dest n s1 v1 fresh hn)
      | inr two ↦ rw two (
          Obeys-attempt (Below bits) (Below bits) dest _ s _ _
            (serialize_dwords-Obeys dest bits s v (ground arith) (ground arith))
            λ n s1 hn v1 fresh. accepting (Below bits) dest n s1 v1 fresh hn)
    ])
  ]

  pub serialize_bool-Obeys :
      (dest : Bool) (s : ReadStream)
      → IsValid s.reader
      → Obeys (λ _ _. Unit {0}) dest s (serialize_bool (read_stream checked) dest s)
  unfolding serialize_bool
  serialize_bool-Obeys dest s v =
      Obeys-attempt (Below 1) (λ _ _. Unit {0}) dest _ s _ _
        (serialize_bits-Obeys checked _ 1 s v (omega arith))
        λ n s1 _ v1 fresh. accepting (λ _ _. Unit {0}) dest (not (n == 0)) s1 v1 fresh tt
