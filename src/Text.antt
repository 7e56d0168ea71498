-- ===== src/Text.antt =====
-- Text as the language keeps it: a `String` is the list of its bytes, well-formed UTF-8; and
-- `serialize_copy_string` of src/lib.rs.
pub mod Boundary
use serialize_rs.Base.{
  ℕ, zero, suc, ◌-◌, min, Bool, true, false, Option, none, some, List, [], ◌∷◌, ◌&&◌, ◌||◌, not,
  ltb, leb, ◌==◌, if◌then◌else◌, length, take,
}
use serialize_rs.Panic.{◌>>=◌, ◌>>◌, debug_assert}

-- `bytes.contains(&0)`
abbrev pub has_nul : List ℕ → Bool
has_nul [] = false
has_nul (b ∷ bs) = b == 0 || has_nul bs

abbrev pub between : ℕ → ℕ → ℕ → Bool
between lo hi b = leb lo b && leb b hi

-- A first byte: how many bytes follow it, and the bounds of the next (Unicode, table 3-7).
unfoldable pub lead : ℕ → Option (ℕ × ℕ × ℕ)
lead b =
    if ltb b 0x80
    then some (0, 0x80, 0xbf)
    else if between 0xc2 0xdf b
    then some (1, 0x80, 0xbf)
    else if b == 0xe0
    then some (2, 0xa0, 0xbf)
    else if b == 0xed
    then some (2, 0x80, 0x9f)
    else if between 0xe1 0xef b
    then some (2, 0x80, 0xbf)
    else if b == 0xf0
    then some (3, 0x90, 0xbf)
    else if between 0xf1 0xf3 b
    then some (3, 0x80, 0xbf)
    else if b == 0xf4
    then some (3, 0x80, 0x8f)
    else none

-- `more` bytes of a character are to come, the next of them between `lo` and `hi`.
unfoldable pub utf8_from : List ℕ → ℕ → ℕ → ℕ → Bool
utf8_from [] zero lo hi = true
utf8_from [] (suc more) lo hi = false
utf8_from (b ∷ bs) zero lo hi = elim (lead b) [
  | none ↦ false
  | some (more, lo', hi') ↦ utf8_from bs more lo' hi'
]
utf8_from (b ∷ bs) (suc more) lo hi = between lo hi b && utf8_from bs more 0x80 0xbf

-- `core::str::from_utf8(bytes).is_ok()`
abbrev pub is_utf8 : List ℕ → Bool
is_utf8 bytes = utf8_from bytes 0 0x80 0xbf

-- A byte that goes on with a character.
abbrev pub continues : ℕ → Bool
continues b = between 0x80 0xbf b

-- Whether a character starts at `index`, or the text ends there.
unfoldable pub starts_at : List ℕ → ℕ → Bool
starts_at [] zero = true
starts_at (b ∷ bs) zero = not (continues b)
starts_at [] (suc index) = false
starts_at (b ∷ bs) (suc index) = starts_at bs index

-- `source.is_char_boundary(index)`
unfoldable pub is_char_boundary : List ℕ → ℕ → Bool
unfolding starts_at
is_char_boundary bytes index = index == 0 || starts_at bytes index

-- `source.split('\0').next()`
unfoldable pub up_to_nul : List ℕ → List ℕ
up_to_nul [] = []
up_to_nul (b ∷ bs) = let rest = up_to_nul bs in if b == 0 then [] else b ∷ rest

-- `while !source.is_char_boundary(end) { end -= 1; }`
unfoldable pub floor_boundary : List ℕ → ℕ → ℕ
unfolding is_char_boundary
floor_boundary source zero = zero
floor_boundary source (suc end) =
    let lower = floor_boundary source end in
    if is_char_boundary source (suc end) then suc end else lower

-- What `dest` holds afterwards.
unfoldable pub serialize_copy_string : Bool → List ℕ → ℕ → Option (List ℕ)
unfolding up_to_nul floor_boundary
serialize_copy_string checked source buffer_size = do
  debug_assert checked (leb 1 buffer_size)
  let text = up_to_nul source
  some (take (floor_boundary text (min (length text) (buffer_size - 1))) text)
