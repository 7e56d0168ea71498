-- ===== src/ReadStream/End.antt =====
-- About `serialize_end` of src/read_stream.rs.
use serialize_rs.Base.{
  ℕ, ◌-◌, ◌%◌, ◌≤◌, ◌<◌, ◌≡◌, ap, arith, Bool, none, some, leb, ◌==◌, if◌then◌else◌,
}
use native.Mathlib.Decide.{dec_lt, ℕ_discrete}
use serialize_rs.Error.{Error, nonzero_padding, trailing_data}
use serialize_rs.Outcome.{Outcome, ok, err}
use serialize_rs.BitReader.{read_bits, bits_remaining}
use serialize_rs.BitReader.Valid.{IsValid, field, advance, field-zero}
use serialize_rs.BitReader.Extract.{read_bits-Reads}
use serialize_rs.ReadStream.{ReadStream, serialize_end, latch}

abbrev pub to_end : ReadStream → ℕ
to_end s = s.reader.num_bits - s.reader.bits_read

-- What an end makes of the bits that are left, on a stream that has not failed: a whole byte left
-- over is `trailing_data`, whatever the padding holds; else a set padding bit is
-- `nonzero_padding`; else the end is accepted, behind the last bit.
abbrev pub end_result : ReadStream → Outcome Unit ReadStream
end_result s =
    let s1 = record s { reader = advance s.reader (to_end s) } in
    if leb 8 (to_end s)
    then err trailing_data tt (record s { failed = some trailing_data })
    else if field s.reader (to_end s) == 0
    then ok tt s1
    else err nonzero_padding tt (record s1 { failed = some nonzero_padding })

module _ (checked : Bool) {s : ReadStream} (v : IsValid s.reader) (fresh : s.failed ≡ none) where
  remaining_lem : bits_remaining s.reader ≡ to_end s
  unfolding bits_remaining
  remaining_lem = omega arith

  padding_read :
      to_end s < 8
      → 0 < to_end s
      → read_bits checked s.reader (to_end s)
        ≡ some (field s.reader (to_end s), advance s.reader (to_end s))
  padding_read h p =
      (read_bits-Reads checked v (to_end s) (omega arith) (omega arith) (omega (arith, v.within))).0

  end_trailing : 8 ≤ to_end s → serialize_end checked s ≡ end_result s
  unfolding serialize_end latch
  end_trailing h = ground (arith, fresh, remaining_lem)

  end_nothing : to_end s ≡ 0 → serialize_end checked s ≡ end_result s
  unfolding serialize_end latch
  end_nothing h = ground (arith, fresh, remaining_lem, field-zero s.reader, ap (field s.reader) h)

  end_padding : to_end s < 8 → 0 < to_end s → serialize_end checked s ≡ end_result s
  unfolding serialize_end latch
  end_padding h p =
      ground (arith, fresh, remaining_lem, ap (read_bits checked s.reader) small, padding_read h p)
    where
      small : to_end s % 8 ≡ to_end s
      small = omega arith

  -- `ReadStream::serialize_end` on a stream that has not failed, with a valid reader, in either
  -- build, never panics, and its verdict is this: if 8 bits or more are left it latches
  -- `TrailingData`, whatever the bits hold; otherwise, if a bit that is left is set, it latches
  -- `NonzeroPadding`; otherwise it accepts; in the last two cases the reader stands at the end
  -- of the packet.
  pub serialize_end_lem : serialize_end checked s ≡ end_result s
  serialize_end_lem = elim (dec_lt (to_end s) 8) [
    | yes short ↦ elim (ℕ_discrete (to_end s) 0) [
      | yes nothing ↦ end_nothing nothing
      | no something ↦ end_padding short (omega arith)
    ]
    | no long ↦ end_trailing (omega arith)
  ]

-- On a stream that has failed the end refuses for the first reason.
pub end_failed :
    (checked : Bool) (s : ReadStream) (first : Error)
    → s.failed ≡ some first
    → serialize_end checked s ≡ err first tt s
unfolding serialize_end
end_failed checked s first h = ground (arith, h)
