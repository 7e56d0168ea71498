-- ===== src/BitWriter/Refinement.antt =====
-- What a `BitWriter` of src/bitpacker.rs promises: it appends to a string of bits. The string
-- forgets the buffer, the scratch and the words.
use serialize_rs.Base.{
  ℕ, ◌+◌, ◌-◌, ◌*◌, ◌%◌, ◌^◌, ◌≤◌, ◌<◌, ◌≡◌, refl, ap, ap₂, sym, ◌∙◌, arith, Bool, false, Option,
  some, List, [], ◌∷◌, ◌++◌, replicate, length,
}
use mathlib.Core.Path.{subst}
use serialize_rs.Panic.{◌>>=◌}
use serialize_rs.Bytes.{IsBytes, IsBytes-take, le_value}
use serialize_rs.Bits.{
  digits, digits_of_bytes, length-digits, digits-zero, digits-append, digits-le_value,
}
use serialize_rs.BitWriter.{
  BitWriter, new, write_bits, write_align, write_bytes, align_bits, flush_bits, data_slice,
  bytes_written,
}
use serialize_rs.BitWriter.Valid.{IsValid, written, written-lt, Appends}
use serialize_rs.BitWriter.Append.{write_bits-Appends}
use serialize_rs.BitWriter.Align.{new-IsValid, write_align-Appends}
use serialize_rs.BitWriter.Block.{write_bytes-Appends}
use serialize_rs.BitWriter.Flush.{Flushes, flush_bits-Flushes, data_slice-Flushes}

pub data Command : Type 0 where
  put_bits : ℕ → ℕ → Command
  put_align : Command
  put_bytes : List ℕ → Command

-- The methods of the writer.
abbrev pub perform : Bool → Command → BitWriter → Option BitWriter
perform checked (put_bits value bits) w = write_bits checked w value bits
perform checked put_align w = write_align checked w
perform checked (put_bytes bytes) w = write_bytes checked w bytes

abbrev pub perform_all : Bool → List Command → BitWriter → Option BitWriter
perform_all checked [] w = some w
perform_all checked (c ∷ cs) w = do w1 ← perform checked c w; perform_all checked cs w1

-- The same on the string of the bits so far.
abbrev pub appended : Command → List Bool → List Bool
appended (put_bits value bits) s = digits bits value
appended put_align s = replicate ((8 - length s % 8) % 8) false
appended (put_bytes bytes) s = digits_of_bytes bytes

abbrev pub append_all : List Command → List Bool → List Bool
append_all [] s = s
append_all (c ∷ cs) s = append_all cs (s ++ appended c s)

-- What the caller owes, in a packet of `size` bits.
abbrev pub IsAllowed : ℕ → Command → List Bool → Type 0
IsAllowed size (put_bits value bits) s =
    (1 ≤ bits) × (bits ≤ 32) × (value < 2 ^ bits) × (length s + bits ≤ size)
IsAllowed size put_align s = Unit {0}
IsAllowed size (put_bytes bytes) s =
    (length s % 8 ≡ 0) × IsBytes bytes × (length s + 8 * length bytes ≤ size)

abbrev pub AreAllowed : ℕ → List Command → List Bool → Type 0
AreAllowed size [] s = Unit {0}
AreAllowed size (c ∷ cs) s = IsAllowed size c s × AreAllowed size cs (s ++ appended c s)

-- The writer stands for the string.
pub record Represents (w : BitWriter) (s : List Bool) : Type 0 where
  pub valid : IsValid w
  pub same : digits w.bits_written (written w) ≡ s

Represents-length : {w : BitWriter} {s : List Bool} → Represents w s → length s ≡ w.bits_written
Represents-length {w} h = ap length (sym h.same) ∙ length-digits w.bits_written (written w)

-- Appending a number to what is written appends its digits to the string.
Appends-Represents :
    {w : BitWriter} {s : List Bool} (value bits : ℕ) {r : Option BitWriter} (more : List Bool)
    → Represents w s
    → digits bits value ≡ more
    → Appends w value bits r
    → (out : BitWriter) × (r ≡ some out) × Represents out (s ++ more) × (out.num_bits ≡ w.num_bits)
Appends-Represents {w} value bits more h e a = (
  a.out,
  a.returns,
  record {
    valid = a.valid;
    same =
        ap₂ digits a.counted a.appended
        ∙ digits-append w.bits_written bits (written w) value (written-lt h.valid)
        ∙ ap₂ (λ xs ys. xs ++ ys) h.same e;
  },
  a.same_size,
)

module _ (checked : Bool) where
  perform-Represents :
      (c : Command) {w : BitWriter} {s : List Bool}
      → Represents w s
      → IsAllowed w.num_bits c s
      → (out : BitWriter) × (perform checked c w ≡ some out)
        × Represents out (s ++ appended c s)
        × (out.num_bits ≡ w.num_bits)
  perform-Represents (put_bits value bits) {w} h (lo, hi, small, room) =
      Appends-Represents value bits (digits bits value) h refl (
        write_bits-Appends checked value bits h.valid (record {
          wide = lo;
          narrow = hi;
          small = small;
          space = omega (arith, Represents-length h);
        }))
  perform-Represents put_align {w} {s} h allowed =
      Appends-Represents 0 (align_bits w) (replicate ((8 - length s % 8) % 8) false) h
        (digits-zero (align_bits w) ∙ ap (λ (n : ℕ). replicate n false) pad)
        (write_align-Appends checked h.valid)
    where
      pad : align_bits w ≡ (8 - length s % 8) % 8
      pad = unfold align_bits in ap (λ (n : ℕ). (8 - n % 8) % 8) (sym (Represents-length h))
  perform-Represents (put_bytes bytes) h (aligned, are_bytes, room) =
      Appends-Represents (le_value bytes) (8 * length bytes) (digits_of_bytes bytes) h
        (digits-le_value bytes are_bytes)
        (write_bytes-Appends checked h.valid bytes (omega (arith, Represents-length h)) are_bytes
          (omega (arith, Represents-length h)))

  perform_all-Represents :
      (cs : List Command) {w : BitWriter} {s : List Bool}
      → Represents w s
      → AreAllowed w.num_bits cs s
      → (out : BitWriter) × (perform_all checked cs w ≡ some out) × Represents out (append_all cs s)
  perform_all-Represents [] {w} h allowed = (w, refl, h)
  perform_all-Represents (c ∷ cs) {w} {s} h (allowed, are_allowed) =
      let (w1, returns, h1, same) = perform-Represents c h allowed in
      rw returns (
        perform_all-Represents cs h1
          (subst (λ n. AreAllowed n cs (s ++ appended c s)) (sym same) are_allowed))

-- A new writer, the commands, the flush, and the bytes to send.
abbrev pub pack : Bool → List Command → List ℕ → Option (List ℕ)
pack checked cs buffer = do
  w ← new checked buffer
  w1 ← perform_all checked cs w
  w2 ← flush_bits checked w1
  some (data_slice w2)

module _ (checked : Bool) where
  -- The bytes behind a flush are the string, filled up with zeros.
  flushed :
      {w : BitWriter} {s : List Bool}
      → Represents w s
      → (bytes : List ℕ) × ((do w2 ← flush_bits checked w; some (data_slice w2)) ≡ some bytes)
        × (digits_of_bytes bytes ≡ s ++ replicate ((8 - length s % 8) % 8) false)
  unfolding data_slice bytes_written
  flushed {w} {s} h =
      let f : Flushes w (flush_bits checked w) = flush_bits-Flushes checked h.valid in
      let (len, spelled) = data_slice-Flushes checked h.valid f in
      let pad = (8 - length s % 8) % 8 in
      let whole : 8 * length (data_slice f.out) ≡ w.bits_written + pad =
        omega (arith, len, Represents-length h) in
      (
        data_slice f.out,
        rw f.returns refl,
        sym (digits-le_value (data_slice f.out) (IsBytes-take _ f.out.buffer f.bytes))
            ∙ ap₂ digits whole (spelled ∙ omega arith)
            ∙ digits-append w.bits_written pad (written w) 0 (written-lt h.valid)
            ∙ ap₂ (λ xs ys. xs ++ ys) h.same (digits-zero pad),
      )

  -- A `BitWriter` is a string of bits that is appended to. For any sequence of `write_bits`,
  -- `write_align` and `write_bytes` that the string allows (widths in [1,32], values that fit
  -- them, bytes at byte boundaries, no more bits than the buffer), over a buffer of whole words
  -- of 8 bytes, under 2^64 bits, in either build: the new writer, the sequence and the flush do
  -- not panic, and the bits of `data`, byte by byte and the lowest first, are the string of what
  -- was appended (a value's digits, the zeros of an align, the bytes' digits), filled up with
  -- zeros to a whole byte.
  pub pack-append_all :
      (cs : List Command) (buffer : List ℕ)
      → length buffer % 8 ≡ 0
      → 8 * length buffer < 2 ^ 64
      → IsBytes buffer
      → AreAllowed (8 * length buffer) cs []
      → (bytes : List ℕ) × (pack checked cs buffer ≡ some bytes)
        × (digits_of_bytes bytes
            ≡ append_all cs [] ++ replicate ((8 - length (append_all cs []) % 8) % 8) false)
  unfolding digits
  pack-append_all cs buffer whole fits are_bytes allowed =
      let (w, returns, valid, nothing, start, size) =
        new-IsValid checked buffer whole fits are_bytes in
      let h : Represents w [] = record {
        valid = valid;
        same = ap (λ (n : ℕ). digits n (written w)) start;
      } in
      let (w1, performs, h1) =
        perform_all-Represents checked cs h (subst (λ n. AreAllowed n cs []) (sym size) allowed) in
      let (bytes, returns_bytes, same) = flushed h1 in
      (bytes, rw (returns, performs, returns_bytes) refl, same)
