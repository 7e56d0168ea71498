-- ===== src/WriteStream/Twins.antt =====
-- src/write_stream.rs: the by-value twins of the serialize operations.
use serialize_rs.Base.{
  ℕ, ◌≡◌, refl, Bool, false, Option, some, none, List, length, if◌then◌else◌, inl, inr, Bool-cases,
  Option-cases,
}
use serialize_rs.Base.Int.{ℤ}
use serialize_rs.Outcome.{Outcome, ok, err, panic, attempt, enter}
use serialize_rs.Panic.{◌>>=◌, ◌>>◌, debug_assert}
use serialize_rs.BitWriter
use serialize_rs.Stream.Raw.{
  serialize_bits64, serialize_bool, serialize_u8, serialize_u16, serialize_u32, serialize_u64,
}
use serialize_rs.Stream.Ranged.{serialize_int, serialize_int64}
use serialize_rs.Stream.Wide.{serialize_f32, serialize_f64}
use serialize_rs.WriteStream.{
  WriteStream, write_stream, serialize_bits, serialize_align, serialize_bytes, has_room,
}

-- `let _ = ...`: the stream as the operation left it.
abbrev pub dropped : {A : Type 0} → Outcome A WriteStream → Option WriteStream
dropped (ok a s) = some s
dropped (err e a s) = some s
dropped panic = none

-- The part behind the check for room.
pad_and_copy :
    (checked : Bool) (src : List ℕ) (s : WriteStream)
    → (do
      aligned ← BitWriter.write_align checked s.writer
      writer ← BitWriter.write_bytes checked aligned src
      some (record { writer = writer }))
      ≡ dropped (
          attempt src (serialize_align checked s) λ _ s1.
            enter
              (BitWriter.write_bytes checked s1.writer src)
              λ writer. ok src (record { writer = writer }))
unfolding serialize_align
pad_and_copy checked src s = elim (Option-cases (BitWriter.write_align checked s.writer)) [
  | inl stopped ↦ rw stopped refl
  | inr (aligned, pads) ↦ elim (Option-cases (BitWriter.write_bytes checked aligned src)) [
    | inl stopped ↦ rw (pads, stopped) refl
    | inr (writer, copies) ↦ rw (pads, copies) refl
  ]
]

module _ (checked : Bool) where
  unfoldable pub write_bytes : List ℕ → WriteStream → Option WriteStream
  write_bytes src s = do
    debug_assert checked (has_room s.writer 0 (length src))
    aligned ← BitWriter.write_align checked s.writer
    writer ← BitWriter.write_bytes checked aligned src
    some (record { writer = writer })

  unfoldable pub write_bits : ℕ → ℕ → WriteStream → Option WriteStream
  write_bits value bits s = do
    writer ← BitWriter.write_bits checked s.writer value bits
    some (record { writer = writer })

  unfoldable pub write_bits64 : ℕ → ℕ → WriteStream → Option WriteStream
  unfolding serialize_bits64
  write_bits64 value bits s = dropped (serialize_bits64 (write_stream checked) value bits s)

  unfoldable pub write_int : ℤ → ℤ → ℤ → WriteStream → Option WriteStream
  unfolding serialize_int
  write_int value min max s = dropped (serialize_int (write_stream checked) value min max s)

  unfoldable pub write_int64 : ℤ → ℤ → ℤ → WriteStream → Option WriteStream
  unfolding serialize_int64
  write_int64 value min max s = dropped (serialize_int64 (write_stream checked) value min max s)

  unfoldable pub write_bool : Bool → WriteStream → Option WriteStream
  unfolding write_bits
  write_bool value s = write_bits (if value then 1 else 0) 1 s

  unfoldable pub write_u8 : ℕ → WriteStream → Option WriteStream
  unfolding write_bits
  write_u8 value s = write_bits value 8 s

  unfoldable pub write_u16 : ℕ → WriteStream → Option WriteStream
  unfolding write_bits
  write_u16 value s = write_bits value 16 s

  unfoldable pub write_u32 : ℕ → WriteStream → Option WriteStream
  unfolding write_bits
  write_u32 value s = write_bits value 32 s

  unfoldable pub write_u64 : ℕ → WriteStream → Option WriteStream
  unfolding write_bits64
  write_u64 value s = write_bits64 value 64 s

  unfoldable pub write_f32 : ℕ → WriteStream → Option WriteStream
  unfolding serialize_f32
  write_f32 value s = dropped (serialize_f32 (write_stream checked) value s)

  unfoldable pub write_f64 : ℕ → WriteStream → Option WriteStream
  unfolding serialize_f64
  write_f64 value s = dropped (serialize_f64 (write_stream checked) value s)

  field-dropped :
      {A : Type 0} (dest : A) (result : ℕ → A) (value bits : ℕ) (s : WriteStream)
      → write_bits value bits s
        ≡ dropped (attempt dest (serialize_bits checked value bits s) (λ n s1. ok (result n) s1))
  unfolding write_bits serialize_bits
  field-dropped dest result value bits s =
      elim (Option-cases (BitWriter.write_bits checked s.writer value bits)) [
        | inl stopped ↦ rw stopped refl
        | inr (writer, returns) ↦ rw returns refl
      ]

  bits-dropped :
      (value bits : ℕ) (s : WriteStream)
      → write_bits value bits s ≡ dropped (serialize_bits checked value bits s)
  unfolding write_bits serialize_bits
  bits-dropped value bits s =
      elim (Option-cases (BitWriter.write_bits checked s.writer value bits)) [
        | inl stopped ↦ rw stopped refl
        | inr (writer, returns) ↦ rw returns refl
      ]

  bytes-dropped :
      (src : List ℕ) (s : WriteStream) → write_bytes src s ≡ dropped (serialize_bytes checked src s)
  unfolding write_bytes serialize_bytes
  bytes-dropped src s = elim (Bool-cases (has_room s.writer 0 (length src))) [
    | inl room ↦ rw room (pad_and_copy checked src s)
    | inr full ↦ elim (Bool-cases checked) [
      | inl trap ↦ rw (full, trap) refl
      | inr release ↦ rw (full, release) (pad_and_copy false src s)
    ]
  ]

  -- In either build and in every state of the stream, panics included: `write_bytes`,
  -- `write_bits`, `write_bool`, `write_u8`, `write_u16`, `write_u32` and `write_u64` of
  -- `WriteStream` leave the stream as the serialize operation of the same field does.
  pub twins-dropped :
      (s : WriteStream) (src : List ℕ) (value bits : ℕ) (flag : Bool)
      → (write_bytes src s ≡ dropped (serialize_bytes checked src s))
        × (write_bits value bits s ≡ dropped (serialize_bits checked value bits s))
        × (write_bool flag s ≡ dropped (serialize_bool (write_stream checked) flag s))
        × (write_u8 value s ≡ dropped (serialize_u8 (write_stream checked) value s))
        × (write_u16 value s ≡ dropped (serialize_u16 (write_stream checked) value s))
        × (write_u32 value s ≡ dropped (serialize_u32 (write_stream checked) value s))
        × (write_u64 value s ≡ dropped (serialize_u64 (write_stream checked) value s))
  unfolding write_bool write_u8 write_u16 write_u32 write_u64 write_bits64 serialize_bool
      serialize_u8 serialize_u16 serialize_u32 serialize_u64
  twins-dropped s src value bits flag = (
    bytes-dropped src s,
    bits-dropped value bits s,
    field-dropped flag (λ _. flag) (if flag then 1 else 0) 1 s,
    field-dropped value (λ _. value) value 8 s,
    field-dropped value (λ _. value) value 16 s,
    bits-dropped value 32 s,
    refl,
  )
