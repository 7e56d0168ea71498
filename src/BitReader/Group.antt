-- ===== src/BitReader/Group.antt =====
-- About `read_bits_group` of src/bitpacker.rs.
use serialize_rs.Base.{
  ℕ, ◌+◌, ◌-◌, ◌*◌, ◌/◌, ◌%◌, ◌^◌, ◌≤◌, ◌≡◌, refl, ap, ap₂, sym, ◌∙◌, arith, Bool, true, some, List,
  [], ◌∷◌, take, drop, bit_and, bit_and_mask, shr, le→leb, lt→ltb, mod-pow_div, mod-pow_mod,
  div-pow_add, sub_word,
}
use serialize_rs.Bytes.{IsBytes, IsBytes-take, IsBytes-drop, le_value, le_value-take, le_value-drop}
use serialize_rs.BitReader.{
  BitReader, read_each, read_bits_group, group_values, widths_ok, total_bits, extract,
}
use serialize_rs.BitReader.Valid.{IsValid, field, field_lem, advance, advance-IsValid}
use serialize_rs.BitReader.Extract.{read_bits-Reads, window_bits}

abbrev pub AreWidths : List ℕ → Type 0
AreWidths [] = Unit
AreWidths (bits ∷ rest) = (1 ≤ bits) × (bits ≤ 32) × AreWidths rest

-- The packet's bits, cut at the widths.
pub fields : BitReader → List ℕ → List ℕ
fields r [] = []
fields r (bits ∷ rest) = field r bits ∷ fields (advance r bits) rest

widths_ok_lem : (widths : List ℕ) → AreWidths widths → widths_ok widths ≡ true
unfolding widths_ok
widths_ok_lem [] h = refl
widths_ok_lem (bits ∷ rest) (lo, hi, h) =
    ground (arith, lt→ltb (sub_word 32 bits 1) 32 (omega arith), widths_ok_lem rest h)

module _ (checked : Bool) where
  read_each_lem :
      (widths : List ℕ) (r : BitReader)
      → IsValid r
      → AreWidths widths
      → r.bits_read + total_bits widths ≤ r.num_bits
      → read_each checked r widths ≡ some (fields r widths, advance r (total_bits widths))
  unfolding read_each fields total_bits
  read_each_lem [] r v h room = ground arith
  read_each_lem (bits ∷ rest) r v (lo, hi, h) room = ground (
    arith,
    (read_bits-Reads checked v bits lo hi (omega arith)).0,
    read_each_lem rest (advance r bits) (advance-IsValid bits v (omega arith)) h (omega arith),
  )

-- One step of the fast loop: the window at the byte of `local` holds the reader's next bits.
group_window :
    (r : BitReader) (base local bits : ℕ)
    → IsBytes r.buffer
    → r.bits_read ≡ 8 * base + local
    → local + bits ≤ 255
    → bits ≤ 32
    → r.bits_read + bits ≤ r.num_bits
    → extract
        (le_value (take 8 (drop (bit_and (local / 8) 31) (take 40 (drop base r.buffer)))))
        (bit_and local 7)
        bits
      ≡ field r bits
group_window r base local bits hb at small hi room =
    ap (λ (t : ℕ). extract (le_value (take 8 (drop t group))) (bit_and local 7) bits)
      (bit_and_mask 5 (local / 8) ∙ in_group)
    ∙ ap (λ (t : ℕ). extract t (bit_and local 7) bits)
        (le_value-take 8 (drop (local / 8) group) (IsBytes-drop (local / 8) group group_bytes)
          ∙ ap (λ (t : ℕ). t % 2 ^ 64) (le_value-drop (local / 8) group group_bytes))
    ∙ window_bits (le_value group) local bits hi
    ∙ ap (λ (t : ℕ). t / 2 ^ local % 2 ^ bits) group_value
    ∙ ap (λ (t : ℕ). t % 2 ^ bits) cut
    ∙ mod-pow_mod (le_value r.buffer / 2 ^ (8 * base) / 2 ^ local) bits (320 - local) (omega arith)
    ∙ ap (λ (t : ℕ). t % 2 ^ bits)
        (div-pow_add (le_value r.buffer) (8 * base) local
          ∙ ap (λ (t : ℕ). le_value r.buffer / 2 ^ t) (sym at))
    ∙ field_lem r bits room
  where
    group : List ℕ
    group = take 40 (drop base r.buffer)

    group_bytes : IsBytes group
    group_bytes = IsBytes-take 40 (drop base r.buffer) (IsBytes-drop base r.buffer hb)

    in_group : local / 8 % 32 ≡ local / 8
    in_group = omega arith

    group_value : le_value group ≡ le_value r.buffer / 2 ^ (8 * base) % 2 ^ 320
    group_value =
        le_value-take 40 (drop base r.buffer) (IsBytes-drop base r.buffer hb)
        ∙ ap (λ (t : ℕ). t % 2 ^ 320) (le_value-drop base r.buffer hb)

    cut :
        le_value r.buffer / 2 ^ (8 * base) % 2 ^ 320 / 2 ^ local
        ≡ le_value r.buffer / 2 ^ (8 * base) / 2 ^ local % 2 ^ (320 - local)
    cut =
        ap (λ (t : ℕ). le_value r.buffer / 2 ^ (8 * base) % 2 ^ t / 2 ^ local) whole
        ∙ mod-pow_div (le_value r.buffer / 2 ^ (8 * base)) local (320 - local)
      where
        whole : 320 ≡ local + (320 - local)
        whole = omega arith

group_values_lem :
    (widths : List ℕ) (r : BitReader) (base local : ℕ)
    → IsBytes r.buffer
    → AreWidths widths
    → r.bits_read ≡ 8 * base + local
    → local + total_bits widths ≤ 255
    → r.bits_read + total_bits widths ≤ r.num_bits
    → group_values (take 40 (drop base r.buffer)) local widths ≡ fields r widths
unfolding group_values fields total_bits
group_values_lem [] r base local hb h at small room = refl
group_values_lem (bits ∷ rest) r base local hb (lo, hi, h) at small room =
    ap₂ ◌∷◌
      (ap
          (λ (t : ℕ).
            extract (le_value (take 8 (drop (bit_and t 31) (take 40 (drop base r.buffer)))))
              (bit_and local 7) bits)
          unmasked
        ∙ group_window r base local bits hb at (omega arith) hi (omega arith))
      (ap (λ (t : ℕ). group_values (take 40 (drop base r.buffer)) t rest) (omega arith)
        ∙ group_values_lem rest (advance r bits) base (local + bits) hb h (omega arith)
            (omega arith) (omega arith))
  where
    unmasked : shr 32 local 3 ≡ local / 8
    unmasked = omega arith

module _ (checked : Bool) {r : BitReader} (v : IsValid r) where
  -- On either path, in either build: no panic, and the values are the packet's bits, cut at the
  -- widths.
  pub read_bits_group_lem :
      (widths : List ℕ)
      → AreWidths widths
      → r.bits_read + total_bits widths ≤ r.num_bits
      → (read_bits_group checked r widths ≡ some (fields r widths, advance r (total_bits widths)))
        × IsValid (advance r (total_bits widths))
  unfolding read_bits_group
  read_bits_group_lem widths h room = (
    ground (
      arith,
      widths_ok_lem widths h,
      le→leb (r.bits_read + total_bits widths) r.num_bits room,
      bit_and_mask 3 r.bits_read,
      read_each_lem checked widths r v h room,
      group_values_lem widths r (r.bits_read / 8) (r.bits_read % 8) v.bytes h (omega arith),
    ),
    advance-IsValid (total_bits widths) v room,
  )

  -- `BitReader::read_bits_group` on a valid reader, with every width in [1,32] and the sum of
  -- the widths left to read, in either build: it returns what `read_bits` returns once for each
  -- width, values and reader, whichever path it takes.
  pub read_bits_group-read_each :
      (widths : List ℕ)
      → AreWidths widths
      → r.bits_read + total_bits widths ≤ r.num_bits
      → read_bits_group checked r widths ≡ read_each checked r widths
  read_bits_group-read_each widths h room =
      (read_bits_group_lem widths h room).0 ∙ sym (read_each_lem checked widths r v h room)
