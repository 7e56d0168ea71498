-- ===== src/Stream.antt =====
-- src/stream.rs, the trait `Stream` and the sealed `gate`: what each of the three streams
-- provides, and what the shared operations are built from.
pub mod Raw
pub mod Dwords
pub mod Ranged
pub mod Code
pub mod Wide
pub mod Relative
pub mod Fixed
pub mod Scale
pub mod Format
pub mod FixedCode
pub mod RelativeCode
pub mod Strings
pub mod StringCode
pub mod Groups
use serialize_rs.Base.{ℕ, Bool, true, false, List, if◌then◌else◌}
use serialize_rs.Error.{Error, value_out_of_range, rejected}
use serialize_rs.Outcome.{Outcome, ok, err, panic, attempt, assert_then}

-- `checked` is the build: with debug assertions or without.
pub record Stream (S : Type 0) : Type 0 where
  pub checked : Bool
  pub is_writing : Bool
  pub is_reading : Bool
  pub fail : Error → S → Outcome Unit S
  pub gate : S → Outcome Unit S
  pub serialize_bits : ℕ → ℕ → S → Outcome ℕ S
  pub serialize_bytes : List ℕ → S → Outcome (List ℕ) S
  pub serialize_align : S → Outcome Unit S
  pub serialize_end : S → Outcome Unit S

module _ {S : Type 0} (stream : Stream S) where
  abbrev pub fail_with : {A : Type 0} → Error → A → S → Outcome A S
  fail_with e dest s = attempt dest (stream.fail e s) (λ _ s'. ok dest s')

  -- `declaration_check!`: a bad declaration is refused on read, and trips a debug assertion
  -- elsewhere.
  abbrev pub declaration_check : {A : Type 0} → Bool → A → S → Outcome A S → Outcome A S
  declaration_check declared dest s next =
      if declared
      then next
      else if stream.is_reading
      then fail_with value_out_of_range dest s
      else if stream.checked
      then panic
      else next

  -- The failure gate of an operation that moves no bits.
  unfoldable pub refuse_if_failed : S → Outcome Unit S
  refuse_if_failed s = stream.gate s

  unfoldable pub reject : S → Outcome Unit S
  reject s = assert_then stream.checked stream.is_reading (stream.fail rejected s)
