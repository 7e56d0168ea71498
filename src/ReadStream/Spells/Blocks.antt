-- ===== src/ReadStream/Spells/Blocks.antt =====
-- About bytes and strings of src/read_stream.rs: what an accepted read has consumed.
use serialize_rs.Base.{
  ℕ, ◌+◌, ◌-◌, ◌*◌, ◌/◌, ◌%◌, ◌^◌, ◌≤◌, ◌<◌, ◌≡◌, refl, ap, ap₂, sym, arith, Bool, true, false,
  Option, none, List, length, ltb, inl, inr, Bool-cases,
}
use serialize_rs.Base.Int.{ℤ, pos, negsuc, to_word, span}
use serialize_rs.Bytes.{IsBytes, le_value}
use serialize_rs.Error.{past_end, value_out_of_range, embedded_nul, invalid_utf8}
use serialize_rs.BitReader.{BitReader, read_byte_slice, bits_remaining}
use serialize_rs.BitReader.Valid.{IsValid, advance}
use serialize_rs.BitReader.Slice.{Slices, read_byte_slice-Slices}
use serialize_rs.Stream.Strings.{is_buffer_size}
use serialize_rs.Stream.StringCode.{pad_bits, length_bits, string_bits, string_code, longest_lem}
use serialize_rs.Text.{has_nul, is_utf8}
use serialize_rs.ReadStream.{ReadStream, serialize_bytes}
use serialize_rs.ReadStream.Strings.{accept_text, read_payload, serialize_string}
use serialize_rs.ReadStream.Spells.{
  Spells, Spells-as, Spells-then, Spells-valid, Spells-fresh, Spells-position, Yields,
  Yields-weaken, Yields-attempt, Yields-refused,
}
use serialize_rs.ReadStream.Spells.Basic.{serialize_align-Yields}
use serialize_rs.ReadStream.Spells.Ranged.{Coded, serialize_int-Yields}

enough :
    (s : ReadStream) (count : ℕ)
    → IsValid s.reader
    → ltb (bits_remaining s.reader / 8) count ≡ false
    → s.reader.bits_read + 8 * count ≤ s.reader.num_bits
unfolding bits_remaining
enough s count valid long = ground arith

sliced :
    (s : ReadStream) (count : ℕ) {o : Option (List ℕ × BitReader)}
    → s.failed ≡ none
    → IsValid s.reader
    → s.reader.bits_read + 8 * count ≤ s.reader.num_bits
    → (found : Slices s.reader count o)
    → Spells s
        (le_value found.found)
        (8 * count)
        (record s { reader = advance s.reader (8 * count) })
sliced s count fresh valid room found = record {
  seen = record { fresh = fresh; valid = valid; room = room; spelled = sym found.value };
  lands = refl;
}

-- Padding, then so many bytes.
abbrev pub Padded : ReadStream → List ℕ → ReadStream → Type 0
Padded s v t =
    Spells s (2 ^ pad_bits s.reader.bits_read * le_value v)
      (pad_bits s.reader.bits_read + 8 * length v) t

Padded-then :
    {s t u : ReadStream} (v : List ℕ)
    → Spells s 0 (pad_bits s.reader.bits_read) t
    → Spells t (le_value v) (8 * length v) u
    → Padded s v u
Padded-then v pad body = Spells-as (Spells-then pad body) (omega arith) refl

aligned :
    {s t : ReadStream} → Spells s 0 (pad_bits s.reader.bits_read) t → t.reader.bits_read % 8 ≡ 0
aligned pad = omega (arith, Spells-position pad)

module _ (checked : Bool) where
  abbrev pub Block : ℕ → ReadStream → List ℕ → ReadStream → Type 0
  Block count s v t = IsBytes v × (length v ≡ count) × Padded s v t

  pub serialize_bytes-Yields :
      (dest : List ℕ) (s : ReadStream)
      → IsValid s.reader
      → Yields (Block (length dest) s) (serialize_bytes checked dest s)
  unfolding serialize_bytes
  serialize_bytes-Yields dest s valid =
      Yields-attempt (λ _ t. Spells s 0 (pad_bits s.reader.bits_read) t) (Block (length dest) s)
        dest _ _ (serialize_align-Yields checked s valid)
        λ _ s1 pad. elim (Bool-cases (ltb (bits_remaining s1.reader / 8) (length dest))) [
          | inl short ↦ rw short (Yields-refused (Block (length dest) s) dest past_end s1)
          | inr long ↦
              let room = enough s1 (length dest) (Spells-valid pad) long in
              let found : Slices s1.reader (length dest)
                  (read_byte_slice checked s1.reader (length dest)) =
                read_byte_slice-Slices checked (length dest) (Spells-valid pad) (aligned pad)
                  room in
              rw (long, found.returns)
                (
                  found.bytes,
                  found.width,
                  Padded-then found.found pad (
                      Spells-as
                        (sliced s1 (length dest) (Spells-fresh pad) (Spells-valid pad) room found)
                        refl (ap (λ (n : ℕ). 8 * n) (sym found.width))),
                )
        ]

  abbrev pub Payload : ℕ → ReadStream → List ℕ → ReadStream → Type 0
  Payload count s v t =
      IsBytes v
      × (has_nul v ≡ false)
      × (is_utf8 v ≡ true)
      × (length v ≡ count)
      × Spells s (le_value v) (8 * length v) t

  read_payload-Yields :
      (dest : List ℕ) (count : ℕ) (s : ReadStream)
      → IsValid s.reader
      → s.failed ≡ none
      → s.reader.bits_read % 8 ≡ 0
      → Yields (Payload count s) (read_payload checked dest count s)
  unfolding read_payload accept_text
  read_payload-Yields dest count s valid fresh start =
      elim (Bool-cases (ltb (bits_remaining s.reader / 8) count)) [
        | inl short ↦ rw short (Yields-refused (Payload count s) dest past_end s)
        | inr long ↦
            let room = enough s count valid long in
            let found : Slices s.reader count (read_byte_slice checked s.reader count) =
              read_byte_slice-Slices checked count valid start room in
            let s1 = record s { reader = advance s.reader (8 * count) } in
            rw (long, found.returns)
              (elim (Bool-cases (has_nul found.found)) [
                | inl nul ↦ rw nul (Yields-refused (Payload count s) dest embedded_nul s1)
                | inr no_nul ↦ elim (Bool-cases (is_utf8 found.found)) [
                  | inr ill_formed ↦
                      rw (no_nul, ill_formed)
                        (Yields-refused (Payload count s) dest invalid_utf8 s1)
                  | inl well_formed ↦
                      rw (no_nul, well_formed)
                        (
                          found.bytes,
                          no_nul,
                          well_formed,
                          found.width,
                          Spells-as (sliced s count fresh valid room found) refl
                              (ap (λ (n : ℕ). 8 * n) (sym found.width)),
                        )
                ]
              ])
      ]

  abbrev pub Text : ℕ → ReadStream → List ℕ → ReadStream → Type 0
  Text buffer_size s v t =
      IsBytes v
      × (has_nul v ≡ false)
      × (is_utf8 v ≡ true)
      × (length v < buffer_size)
      × (buffer_size < 2 ^ 31)
      × Spells s (string_code buffer_size v s.reader.bits_read)
          (string_bits buffer_size v s.reader.bits_read) t

  counted-Text :
      (buffer_size : ℕ) (s s1 s2 u : ReadStream) (count : ℤ) (v : List ℕ)
      → 1 ≤ buffer_size
      → buffer_size < 2 ^ 31
      → Coded 32 (pos 0) (pos (buffer_size - 1)) s count s1
      → Spells s1 0 (pad_bits s1.reader.bits_read) s2
      → Payload (to_word 64 count) s2 v u
      → Text buffer_size s v u
  counted-Text buffer_size s s1 s2 u (pos n) v some_size small ((_, _, _, _, under), counted) pad
        (are_bytes, no_nul, well_formed, sized, body) =
      let width : length v ≡ n = omega (arith, sized) in
      (
        are_bytes,
        no_nul,
        well_formed,
        omega (arith, width),
        small,
        Spells-as (Spells-then counted (Padded-then v pad body))
            (ap₂
              (λ (k q : ℕ).
                span 32 (pos 0) (pos k)
                + 2 ^ length_bits buffer_size * (2 ^ pad_bits q * le_value v))
              (sym width) (Spells-position counted))
            (ap (λ (q : ℕ). length_bits buffer_size + (pad_bits q + 8 * length v))
              (Spells-position counted)),
      )
  counted-Text buffer_size s s1 s2 u (negsuc n) v some_size small ((_, _, _, over, _), _) pad _ =
      absurd (omega arith)

  pub serialize_string-Yields :
      (dest : List ℕ) (buffer_size : ℕ) (s : ReadStream)
      → IsValid s.reader
      → Yields (Text buffer_size s) (serialize_string checked dest buffer_size s)
  unfolding serialize_string
  serialize_string-Yields dest buffer_size s valid =
      elim (Bool-cases (is_buffer_size buffer_size)) [
        | inr wrong ↦ rw wrong (Yields-refused (Text buffer_size s) dest value_out_of_range s)
        | inl sized ↦
            rw (sized, longest_lem buffer_size (ground (arith, sized)) (ground (arith, sized)))
              (Yields-attempt (Coded 32 (pos 0) (pos (buffer_size - 1)) s) (Text buffer_size s) dest
                _ _
                (serialize_int-Yields checked (pos 0) (pos 0) (pos (buffer_size - 1)) s valid
                  (omega arith) (ground (arith, sized)))
                λ count s1 counted.
                  Yields-attempt (λ _ t. Spells s1 0 (pad_bits s1.reader.bits_read) t)
                    (Text buffer_size s) dest _ _
                    (serialize_align-Yields checked s1 (Spells-valid counted.1))
                    λ _ s2 pad.
                      Yields-weaken (Payload (to_word 64 count) s2) (Text buffer_size s) _
                        (λ v u body.
                          counted-Text buffer_size s s1 s2 u count v (ground (arith, sized))
                            (ground (arith, sized)) counted pad body)
                        (read_payload-Yields dest (to_word 64 count) s2 (Spells-valid pad)
                          (Spells-fresh pad) (aligned pad)))
      ]
