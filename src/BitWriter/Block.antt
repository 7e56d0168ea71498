-- ===== src/BitWriter/Block.antt =====
-- About `write_bytes` of src/bitpacker.rs: its head, its whole words and its tail.
use serialize_rs.Base.{
  ℕ, ◌+◌, ◌-◌, ◌*◌, ◌/◌, ◌%◌, ◌^◌, ◌≤◌, ◌≡◌, refl, ap, ap₂, sym, ◌∙◌, arith, Bool, some, List, [],
  ◌∷◌, ◌==◌, if◌then◌else◌, length, take, drop, length-take, length-drop, drop-drop,
  take-append-drop, take-length, pow_pos, ◌≢◌,
}
use native.Mathlib.Decide.{ℕ_discrete}
use serialize_rs.Bytes.{
  IsBytes, IsBytes-take, IsBytes-drop, le_value, copy_in_bounds, le_value-lt, le_value-append,
}
use serialize_rs.Panic.{◌>>=◌, ◌>>◌, debug_assert}
use serialize_rs.BitWriter.{
  BitWriter, write_bits, write_each, align_bits, copy_words, head_bytes, write_rest, write_bytes,
}
use serialize_rs.BitWriter.Valid.{IsValid, written, stored-append, Appends}
use serialize_rs.BitWriter.Append.{write_bits-Appends}
use serialize_rs.BitWriter.Chain.{
  Appends-none, Appends-as, Appends-via, Appends-assert, Appends-then,
}

module _ (checked : Bool) where
  write_each-Appends :
      (src : List ℕ) {w : BitWriter}
      → IsValid w
      → IsBytes src
      → w.bits_written + 8 * length src ≤ w.num_bits
      → Appends w (le_value src) (8 * length src) (write_each checked w src)
  unfolding write_each le_value
  write_each-Appends [] {w} v hb room = Appends-none v
  write_each-Appends (byte ∷ rest) {w} v (hbyte, hb) room =
      let first : Appends w byte 8 (write_bits checked w byte 8) =
        write_bits-Appends checked byte 8 v (record {
          wide = omega arith;
          narrow = omega arith;
          small = hbyte;
          space = omega arith;
        }) in
      Appends-as
        (Appends-then first (le_value rest) (8 * length rest) (λ w'. write_each checked w' rest)
          (write_each-Appends rest first.valid hb (omega (arith, first.counted, first.same_size))))
        refl (omega arith)

-- The invariant leaves the scratch empty at a word boundary.
scratch_empty :
    {w : BitWriter} → IsValid w → w.bits_written % 64 ≡ 0 → (w.scratch_bits ≡ 0) × (w.scratch ≡ 0)
scratch_empty {w} v e = (empty, omega (arith, v.held, ap (λ (t : ℕ). 2 ^ t) empty))
  where
    empty : w.scratch_bits ≡ 0
    empty = omega arith

copy_words-Appends :
    {w : BitWriter} (num_words : ℕ) (words : List ℕ)
    → IsValid w
    → w.bits_written % 64 ≡ 0
    → IsBytes words
    → length words ≡ num_words * 8
    → w.bits_written + 8 * length words ≤ w.num_bits
    → Appends w (le_value words) (8 * length words) (copy_words w num_words words)
unfolding copy_words written
copy_words-Appends {w} num_words words v aligned hb len room =
    let base : w.bits_written ≡ 64 * w.word_index = omega (arith, scratch_empty v aligned) in
    let end : (w.word_index + num_words) * 8 ≡ w.word_index * 8 + length words = omega arith in
    elim (ℕ_discrete num_words 0) [
      | yes none_left ↦
          Appends-via (Appends-as (Appends-none v) (no_value none_left) (omega arith))
            (ground arith)
      | no some_left ↦
          let (out, ret, same, front, are_bytes) =
            copy_in_bounds w.buffer (w.word_index * 8) words (omega arith) in
          let (no_bits, no_scratch) = scratch_empty v aligned in
          record {
            out = record w {
              buffer = out;
              scratch = 0;
              bits_written = w.bits_written + 8 * length words;
              word_index = w.word_index + num_words;
            };
            returns = ground (arith, ret);
            valid = record {
              whole_words = omega (arith, same);
              size = omega (arith, same);
              fits = v.fits;
              index = omega arith;
              partial = v.partial;
              room = room;
              held = pow_pos w.scratch_bits;
              bytes = are_bytes v.bytes hb;
            };
            appended =
                ap (λ (t : ℕ). le_value (take t out) + 2 ^ (64 * (w.word_index + num_words)) * 0)
                  end
                ∙ omega (
                  arith,
                  ap le_value front,
                  stored-append w words (omega arith),
                  ap (λ (t : ℕ). 2 ^ (64 * w.word_index) * t) no_scratch,
                  ap (λ (t : ℕ). 2 ^ t * le_value words) base,
                );
            counted = refl;
            same_size = refl;
          }
    ]
  where
    no_value : num_words ≡ 0 → 0 ≡ le_value words
    no_value e =
        let width : 8 * length words ≡ 0 = omega arith in
        omega (arith, le_value-lt words hb, ap (λ (t : ℕ). 2 ^ t) width)

length-cut : (n : ℕ) (xs : List ℕ) → n ≤ length xs → length (take n xs) ≡ n
length-cut n xs h = omega (arith, length-take n xs)

-- The bytes from `head` on are `m` of them and the others.
le_value_split :
    (head m : ℕ) (src : List ℕ)
    → m ≤ length src - head
    → le_value (take m (drop head src)) + 2 ^ (8 * m) * le_value (drop (head + m) src)
      ≡ le_value (drop head src)
le_value_split head m src h =
    ap₂ (λ (n : ℕ) (t : ℕ). le_value (take m (drop head src)) + 2 ^ (8 * n) * t)
      (sym (length-cut m (drop head src) (omega (arith, length-drop head src))))
      (ap le_value (sym (drop-drop head m src)))
    ∙ sym (le_value-append (take m (drop head src)) (drop m (drop head src)))
    ∙ ap le_value (take-append-drop m (drop head src))

write_rest-Appends :
    (checked : Bool) {w : BitWriter} (src : List ℕ) (head : ℕ)
    → IsValid w
    → w.bits_written % 64 ≡ 0
    → IsBytes src
    → head ≤ length src
    → w.bits_written + 8 * (length src - head) ≤ w.num_bits
    → Appends w (le_value (drop head src)) (8 * (length src - head)) (write_rest checked src head w)
unfolding write_rest align_bits
write_rest-Appends checked {w} src head v aligned hb in_src room =
    let m = (length src - head) / 8 * 8 in
    let words = take m (drop head src) in
    let tail = drop (head + m) src in
    let width : length words ≡ m =
      length-cut m (drop head src) (omega (arith, length-drop head src)) in
    let copied : Appends w (le_value words) (8 * length words)
        (copy_words w ((length src - head) / 8) words) =
      copy_words-Appends ((length src - head) / 8) words v aligned
        (IsBytes-take m (drop head src) (IsBytes-drop head src hb)) width (omega (arith, width)) in
    let ended : Appends copied.out (le_value tail) (8 * length tail)
        (write_each checked copied.out tail) =
      write_each-Appends checked tail copied.valid (IsBytes-drop (head + m) src hb)
        (omega (arith, width, copied.counted, copied.same_size, length-drop (head + m) src)) in
    let asserted : Appends copied.out (le_value tail) (8 * length tail) (do
      w3 ← write_each checked copied.out tail
      debug_assert checked (align_bits w3 == 0)
      some w3) =
      Appends-assert ended checked (λ w3. align_bits w3 == 0)
        (ground (arith, ended.counted, copied.counted, width)) in
    Appends-via
      (Appends-as
        (Appends-then copied (le_value tail) (8 * length tail)
          (λ w2. do
            w3 ← write_each checked w2 tail
            debug_assert checked (align_bits w3 == 0)
            some w3)
          asserted)
        (ap (λ (t : ℕ). le_value words + 2 ^ (8 * t) * le_value tail) width
          ∙ le_value_split head m src (omega arith))
        (omega (arith, width, length-drop (head + m) src)))
      (ground (arith, scratch_empty v aligned))

module _ (checked : Bool) {w : BitWriter} (v : IsValid w) (src : List ℕ) where
  head_lem :
      w.bits_written % 8 ≡ 0
      → (head_bytes w (length src) ≤ length src)
        × (head_bytes w (length src) ≢ length src
            → (w.bits_written + 8 * head_bytes w (length src)) % 64 ≡ 0)
  unfolding head_bytes
  head_lem e = ground arith

  -- `BitWriter::write_bytes` on a valid writer at a byte boundary with room for the bytes, in
  -- either build: no panic; the bytes are appended in order, as one little endian number,
  -- whichever of them go bit by bit (head and tail) and whichever are copied as whole words; and
  -- the writer stays valid.
  pub write_bytes-Appends :
      w.bits_written % 8 ≡ 0
      → IsBytes src
      → w.bits_written + 8 * length src ≤ w.num_bits
      → Appends w (le_value src) (8 * length src) (write_bytes checked w src)
  unfolding write_bytes align_bits
  write_bytes-Appends aligned hb room =
      let h = head_bytes w (length src) in
      let (in_src, at_word) = head_lem aligned in
      let width : length (take h src) ≡ h = length-cut h src in_src in
      let first : Appends w (le_value (take h src)) (8 * length (take h src))
          (write_each checked w (take h src)) =
        write_each-Appends checked (take h src) v (IsBytes-take h src hb) (omega (arith, width)) in
      let next = λ (w1 : BitWriter).
        let rest = write_rest checked src h w1 in if h == length src then some w1 else rest in
      let begins : write_bytes checked w src ≡ (write_each checked w (take h src) >>= next) =
        ground arith in
      elim (ℕ_discrete h (length src)) [
        | yes whole ↦
            Appends-via
              (Appends-as
                (Appends-then first 0 0 next
                  (Appends-via (Appends-none first.valid) (ground arith)))
                (omega (arith, ap le_value (take-length h src (omega arith))))
                (omega (arith, width)))
              begins
        | no more ↦
            let rest : Appends first.out (le_value (drop h src)) (8 * (length src - h))
                (write_rest checked src h first.out) =
              write_rest-Appends checked src h first.valid
                (omega (arith, first.counted, width, at_word more)) hb in_src
                (omega (arith, first.counted, first.same_size, width)) in
            Appends-via
              (Appends-as
                (Appends-then first (le_value (drop h src)) (8 * (length src - h)) next
                  (Appends-via rest (ground arith)))
                (sym (le_value-append (take h src) (drop h src))
                  ∙ ap le_value (take-append-drop h src))
                (omega (arith, width)))
              begins
      ]
