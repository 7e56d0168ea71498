-- ===== src/Stream/Strings.antt =====
-- src/stream.rs, `serialize_string` of the trait: what a stream provides beside the operations of
-- `Stream`, and what the two implementations that write share (src/write_stream.rs,
-- `string_length`).
use serialize_rs.Base.{ℕ, Bool, List, ◌&&◌, not, ltb, leb, length, cast, sub_word}
use serialize_rs.Base.Int.{ℤ, of_word}
use serialize_rs.Outcome.{Outcome, assert_then}
use serialize_rs.Stream.{Stream}
use serialize_rs.Text.{has_nul}

pub record StringStream (S : Type 0) : Type 0 where
  pub stream : Stream S
  pub serialize_string : List ℕ → ℕ → S → Outcome (List ℕ) S

-- `buffer_size as i32 - 1`, the highest length.
abbrev pub longest : ℕ → ℤ
longest buffer_size = of_word 32 (sub_word 32 (cast 32 buffer_size) 1)

-- A size in `[1,i32::MAX]`.
abbrev pub is_buffer_size : ℕ → Bool
is_buffer_size buffer_size = leb 1 buffer_size && leb buffer_size 2147483647

-- The debug assertions, then the length as an `i32`.
abbrev pub string_length :
    {S : Type 0} → Bool → List ℕ → ℕ → (ℤ → Outcome (List ℕ) S) → Outcome (List ℕ) S
string_length checked value buffer_size next = assert_then checked (is_buffer_size buffer_size) (
    assert_then checked (ltb (length value) buffer_size)
      (assert_then checked (not (has_nul value)) (next (of_word 32 (cast 32 (length value))))))
