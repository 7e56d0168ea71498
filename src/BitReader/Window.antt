-- ===== src/BitReader/Window.antt =====
-- About `load_window` and `load_window_slow` of src/bitpacker.rs.
use serialize_rs.Base.{
  ℕ, zero, suc, ◌+◌, ◌*◌, ◌/◌, ◌%◌, ◌^◌, ◌≤◌, ◌<◌, ◌≡◌, refl, ap, sym, ◌∙◌, arith, min, List,
  length, drop, replicate, length-drop, drop-length, take-length, pow_mono, leb, Bool-cases, inl,
  inr, leb→lt,
}
use native.Mathlib.Decide.{dec_le}
use serialize_rs.Bytes.{
  IsBytes, le_value, le_value-take, le_value-drop, le_value-append, le_value-lt, IsBytes-drop,
}
use serialize_rs.BitReader.{BitReader, load_window, load_window_slow}

drop-min : (i : ℕ) (xs : List ℕ) → drop (min i (length xs)) xs ≡ drop i xs
drop-min i xs = elim (dec_le i (length xs)) [
  | yes inside ↦ ap (λ (k : ℕ). drop k xs) (omega arith)
  | no past ↦
      drop-length (min i (length xs)) xs (omega arith) ∙ sym (drop-length i xs (omega arith))
]

zeros_value : (m n : ℕ) → le_value (drop n (replicate m 0)) ≡ 0
unfolding le_value
zeros_value zero zero = refl
zeros_value zero (suc n) = refl
zeros_value (suc m) zero = omega (arith, zeros_value m zero)
zeros_value (suc m) (suc n) = zeros_value m n

module _ (r : BitReader) (bytes : IsBytes r.buffer) (i : ℕ) where
  load_window_slow_lem :
      length r.buffer < i + 8 → load_window_slow r i ≡ le_value r.buffer / 2 ^ (8 * i) % 2 ^ 64
  unfolding load_window_slow
  load_window_slow_lem short =
      rw
        (
          drop-min i r.buffer,
          take-length (min (length tail) 8) tail (omega (arith, length-drop i r.buffer)),
          le_value-append tail pad,
        )
        (omega (
          arith,
          ap (λ (t : ℕ). 2 ^ (8 * length tail) * t) (zeros_value 8 (min (length tail) 8)),
          le_value-drop i r.buffer bytes,
          le_value-lt tail (IsBytes-drop i r.buffer bytes),
          bound,
        ))
    where
      tail : List ℕ
      tail = drop i r.buffer

      pad : List ℕ
      pad = drop (min (length tail) 8) (replicate 8 0)

      bound : 2 ^ (8 * length tail) ≤ 2 ^ 64
      bound = pow_mono {b = 64} (omega (arith, length-drop i r.buffer))

  -- `load_window`, over any buffer of bytes and from any byte index, on the fast path and on the
  -- one for the buffer's end, returns the 64 bits of the buffer from that byte on, read as zeros
  -- past the end.
  pub load_window_lem : load_window r i ≡ le_value r.buffer / 2 ^ (8 * i) % 2 ^ 64
  unfolding load_window
  load_window_lem = elim (Bool-cases (leb (i + 8) (length r.buffer))) [
    | inl inside ↦ rw inside (
        le_value-take 8 (drop i r.buffer) (IsBytes-drop i r.buffer bytes)
        ∙ ap (λ (t : ℕ). t % 2 ^ 64) (le_value-drop i r.buffer bytes))
    | inr past ↦ rw past (load_window_slow_lem (leb→lt (i + 8) (length r.buffer) past))
  ]
