-- ===== src/ReadStream.antt =====
-- src/read_stream.rs: `ReadStream`, its latch, and its operations.
pub mod Obligations
pub mod Sees
pub mod Basic
pub mod Guards
pub mod Object
pub mod End
pub mod Start
pub mod Raw
pub mod Ranged
pub mod Floats
pub mod Wide
pub mod Relative
pub mod Strings
pub mod Blocks
pub mod Text
pub mod WideDecode
pub mod GroupsDecode
pub mod FixedDecode
pub mod RelativeDecode
pub mod Spells
pub mod Fixed
pub mod Runs
pub mod Decode
use serialize_rs.Base.{
  ℕ, ◌+◌, ◌-◌, ◌*◌, ◌/◌, ◌%◌, Bool, true, false, ◌&&◌, ◌||◌, not, Option, none, some, List, [], ltb,
  leb, ◌==◌, if◌then◌else◌, length, sub_word,
}
use serialize_rs.Error.{Error, past_end, value_out_of_range, nonzero_padding, trailing_data}
use serialize_rs.Outcome.{Outcome, ok, err, panic, attempt, enter}
use serialize_rs.Panic.{◌>>=◌}
use serialize_rs.BitReader
use serialize_rs.BitReader.{
  BitReader, would_read_past_end, read_bits, read_align, read_byte_slice, bits_remaining,
}
use serialize_rs.Stream.{Stream}

-- `failed` is the terminal failure latch.
pub record ReadStream : Type 0 where
  pub reader : BitReader
  pub failed : Option Error

pub new : Bool → List ℕ → ℕ → Option ReadStream
new checked buffer bytes =
    let fits = leb bytes (length buffer) in
    do
      reader ← BitReader.new checked buffer (if fits then bytes else 0)
      some (record { reader = reader; failed = if fits then none else some value_out_of_range })

-- The first reason stays.
abbrev pub first_reason : Option Error → Error → Error
first_reason none error = error
first_reason (some first) error = first

pub latch : Error → ReadStream → Outcome Unit ReadStream
latch error s =
    let first = first_reason s.failed error in err first tt (record s { failed = some first })

abbrev pub is_failed : ReadStream → Bool
is_failed s = elim s.failed [ none ↦ false | some e ↦ true ]

pub refuses : ReadStream → ℕ → Bool
unfolding would_read_past_end
refuses s bits = is_failed s || would_read_past_end s.reader bits

pub refusal : ReadStream → Error
refusal s = first_reason s.failed past_end

-- `bits.wrapping_sub(1) >= 32`: a width outside [1,32].
abbrev pub bad_width : ℕ → Bool
bad_width bits = leb 32 (sub_word 32 bits 1)

pub refuse_bits : ℕ → ReadStream → Outcome Unit ReadStream
unfolding latch refusal
refuse_bits bits s =
    latch (if not (is_failed s) && bad_width bits then value_out_of_range else refusal s) s

pub refuse_if_latched : ReadStream → Outcome Unit ReadStream
refuse_if_latched s = elim s.failed [ none ↦ ok tt s | some error ↦ err error tt s ]

module _ (checked : Bool) where
  pub serialize_bits : ℕ → ℕ → ReadStream → Outcome ℕ ReadStream
  unfolding refuses refuse_bits
  serialize_bits value bits s =
      if refuses s bits || bad_width bits
      then attempt value (refuse_bits bits s) (λ _ s1. ok value s1)
      else enter (read_bits checked s.reader bits)
          λ (n, reader). ok n (record s { reader = reader })

  pub serialize_align : ReadStream → Outcome Unit ReadStream
  unfolding refuses refusal latch
  serialize_align s =
      if refuses s (BitReader.align_bits s.reader)
      then latch (refusal s) s
      else enter (read_align checked s.reader) λ (zero_padding, reader).
        let s1 = record s { reader = reader } in
        if zero_padding then ok tt s1 else latch nonzero_padding s1

  pub serialize_bytes : List ℕ → ReadStream → Outcome (List ℕ) ReadStream
  unfolding serialize_align latch
  serialize_bytes dest s = attempt dest (serialize_align s) λ _ s1.
      if ltb (bits_remaining s1.reader / 8) (length dest)
      then attempt dest (latch past_end s1) (λ _ s2. ok dest s2)
      else enter (read_byte_slice checked s1.reader (length dest))
          λ (found, reader). ok found (record s1 { reader = reader })

  pub serialize_end : ReadStream → Outcome Unit ReadStream
  unfolding latch
  serialize_end s = elim s.failed [
    | some error ↦ err error tt s
    | none ↦
        let remaining = bits_remaining s.reader in
        let padding_bits = remaining % 8 in
        if leb 8 remaining
        then latch trailing_data s
        else if ltb 0 padding_bits
        then (enter (read_bits checked s.reader padding_bits) λ (padding, reader).
            let s1 = record s { reader = reader } in
            if padding == 0 then ok tt s1 else latch nonzero_padding s1)
        else ok tt s
  ]

  abbrev pub read_stream : Stream ReadStream
  read_stream = record {
    checked = checked;
    is_writing = false;
    is_reading = true;
    fail = latch;
    gate = refuse_if_latched;
    serialize_bits = serialize_bits;
    serialize_bytes = serialize_bytes;
    serialize_align = serialize_align;
    serialize_end = serialize_end;
  }

-- The gate behind a nested object; a refusal of the object's own is latched first, and what
-- `latch` returns is dropped.
after_object : {A : Type 0} → Outcome A ReadStream → Outcome A ReadStream
unfolding refuse_if_latched latch
after_object (ok value s) = attempt value (refuse_if_latched s) (λ _ s1. ok value s1)
after_object (err error value s) = elim (latch error s) [
  | ok _ s1 ↦ attempt value (refuse_if_latched s1) (λ _ s2. ok value s2)
  | err _ _ s1 ↦ attempt value (refuse_if_latched s1) (λ _ s2. ok value s2)
  | panic ↦ panic
]
after_object panic = panic

-- The failure gate on both sides of a nested object.
unfoldable pub serialize_object :
    {A : Type 0} → (A → ReadStream → Outcome A ReadStream) → A → ReadStream → Outcome A ReadStream
unfolding refuse_if_latched after_object
serialize_object object value s =
    attempt value (refuse_if_latched s) λ _ s1. after_object (object value s1)
