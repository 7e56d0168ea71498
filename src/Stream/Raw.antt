-- ===== src/Stream/Raw.antt =====
-- src/stream.rs: the shared operations on raw fields.
use serialize_rs.Base.{
  ℕ, ◌-◌, Bool, ◌&&◌, ◌||◌, not, ltb, leb, ◌==◌, if◌then◌else◌, cast, shl, shr, bit_or, bit_and,
}
use serialize_rs.Outcome.{Outcome, ok, attempt, assert_then}
use serialize_rs.Stream.{Stream, declaration_check}

module _ {S : Type 0} (stream : Stream S) where
  open stream use {checked, is_writing, is_reading, serialize_bits}

  -- The low dword, then the high remainder, of a value wider than 32 bits.
  unfoldable pub serialize_dwords : ℕ → ℕ → S → Outcome ℕ S
  serialize_dwords value bits s =
      attempt value (serialize_bits (cast 32 (bit_and value 0xffff_ffff)) 32 s) λ lo s1.
        attempt value (serialize_bits (cast 32 (shr 64 value 32)) (bits - 32) s1)
          λ hi s2. ok (bit_or (shl 64 hi 32) lo) s2

  unfoldable pub serialize_bits64 : ℕ → ℕ → S → Outcome ℕ S
  unfolding serialize_dwords
  serialize_bits64 value bits s = declaration_check stream (leb 1 bits && leb bits 64) value s (
      assert_then checked (not is_writing || ltb value (shl 128 1 bits)) (
        if leb bits 32
        then attempt value (serialize_bits (cast 32 value) bits s)
            (λ lo s1. ok (if is_reading then lo else value) s1)
        else attempt value (serialize_dwords value bits s)
            (λ wide s1. ok (if is_reading then wide else value) s1)))

  unfoldable pub serialize_bool : Bool → S → Outcome Bool S
  serialize_bool value s =
      attempt value (serialize_bits (if is_writing && value then 1 else 0) 1 s)
        (λ n s1. ok (if is_reading then not (n == 0) else value) s1)

  unfoldable pub serialize_u8 : ℕ → S → Outcome ℕ S
  serialize_u8 value s =
      attempt value (serialize_bits value 8 s)
        (λ n s1. ok (if is_reading then cast 8 n else value) s1)

  unfoldable pub serialize_u16 : ℕ → S → Outcome ℕ S
  serialize_u16 value s =
      attempt value (serialize_bits value 16 s)
        (λ n s1. ok (if is_reading then cast 16 n else value) s1)

  unfoldable pub serialize_u32 : ℕ → S → Outcome ℕ S
  serialize_u32 value s = serialize_bits value 32 s

  unfoldable pub serialize_u64 : ℕ → S → Outcome ℕ S
  unfolding serialize_bits64
  serialize_u64 value s = serialize_bits64 value 64 s
