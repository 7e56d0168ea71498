-- ===== src/ReadStream/Sees.antt =====
-- What a stream is about to read, and reads of it that succeed.
use serialize_rs.Base.{
  ℕ, ◌+◌, ◌*◌, ◌/◌, ◌%◌, ◌^◌, ◌≤◌, ◌<◌, ◌≡◌, ap, sym, ◌∙◌, arith, Bool, none, mod-pow_mod,
  mod-pow_div, div-pow_add, field_mod, field_div,
}
use serialize_rs.Outcome.{ok}
use serialize_rs.BitReader.{BitReader, would_read_past_end}
use serialize_rs.BitReader.Valid.{IsValid, field, packet, advance, advance-IsValid}
use serialize_rs.BitReader.Extract.{read_bits-Reads}
use serialize_rs.ReadStream.{ReadStream, serialize_bits}

-- The stream has not failed, and its next `bits` bits spell `code`.
pub record Sees (s : ReadStream) (code bits : ℕ) : Type 0 where
  pub fresh : s.failed ≡ none
  pub valid : IsValid s.reader
  pub room : s.reader.bits_read + bits ≤ s.reader.num_bits
  pub spelled : field s.reader bits ≡ code

abbrev pub past : ReadStream → ℕ → ReadStream
past s bits = record s { reader = advance s.reader bits }

-- Two steps are one.
pub past-past :
    {A : Type 0} (a : A) (s : ReadStream) (m n : ℕ)
    → ok a (past (past s m) n) ≡ ok a (past s (m + n))
past-past a s m n =
    ap (λ (t : ℕ). ok a (record s { reader = record (s.reader) { bits_read = t } })) (omega arith)

pub field_low : (r : BitReader) (a b : ℕ) → field r (a + b) % 2 ^ a ≡ field r a
unfolding field
field_low r a b = mod-pow_mod (packet r / 2 ^ r.bits_read) a (a + b) (omega arith)

pub field_high : (r : BitReader) (a b : ℕ) → field r (a + b) / 2 ^ a ≡ field (advance r a) b
unfolding field packet
field_high r a b =
    mod-pow_div (packet r / 2 ^ r.bits_read) a b
    ∙ ap (λ (t : ℕ). t % 2 ^ b) (div-pow_add (packet r) r.bits_read a)

pub Sees-as :
    {s : ReadStream} {code bits : ℕ} (code' bits' : ℕ)
    → code ≡ code'
    → bits ≡ bits'
    → Sees s code bits
    → Sees s code' bits'
Sees-as {s} code' bits' p q seen = record {
  fresh = seen.fresh;
  valid = seen.valid;
  room = omega (arith, seen.room);
  spelled = ap (field s.reader) (sym q) ∙ seen.spelled ∙ p;
}

-- Two fields in a row.
pub Sees-low :
    {s : ReadStream} (a b c d : ℕ) → c < 2 ^ a → Sees s (c + 2 ^ a * d) (a + b) → Sees s c a
Sees-low {s} a b c d h seen = record {
  fresh = seen.fresh;
  valid = seen.valid;
  room = omega (arith, seen.room);
  spelled =
      sym (field_low s.reader a b)
      ∙ ap (λ (t : ℕ). t % 2 ^ a) seen.spelled
      ∙ field_mod (2 ^ a) c d h;
}

pub Sees-high :
    {s : ReadStream} (a b c d : ℕ)
    → c < 2 ^ a
    → Sees s (c + 2 ^ a * d) (a + b)
    → Sees (past s a) d b
Sees-high {s} a b c d h seen = record {
  fresh = seen.fresh;
  valid = advance-IsValid a seen.valid (omega (arith, seen.room));
  room = omega (arith, seen.room);
  spelled =
      sym (field_high s.reader a b)
      ∙ ap (λ (t : ℕ). t / 2 ^ a) seen.spelled
      ∙ field_div (2 ^ a) c d h;
}

module _ (checked : Bool) where
  pub serialize_bits-Sees :
      {s : ReadStream} (dest code bits : ℕ)
      → 1 ≤ bits
      → bits ≤ 32
      → Sees s code bits
      → serialize_bits checked dest bits s ≡ ok code (past s bits)
  unfolding serialize_bits would_read_past_end
  serialize_bits-Sees {s} dest code bits lo hi seen = ground (
    arith,
    seen.fresh,
    seen.room,
    seen.spelled,
    (read_bits-Reads checked seen.valid bits lo hi seen.room).0,
  )
