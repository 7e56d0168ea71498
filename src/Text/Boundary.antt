-- ===== src/Text/Boundary.antt =====
-- Cuts of a text, at a NUL and at the start of a character.
use serialize_rs.Base.{
  ℕ, zero, suc, ◌-◌, ◌≤◌, ◌<◌, min, ◌≡◌, refl, ap, sym, ◌∙◌, arith, Bool, true, false, none, some,
  List, [], ◌∷◌, ◌==◌, length, take, inl, inr, Bool-cases, Option-cases, length-take,
}
use native.Mathlib.Decide.{ℕ_discrete}
use serialize_rs.Text.{
  has_nul, lead, utf8_from, is_utf8, continues, starts_at, is_char_boundary, up_to_nul,
  floor_boundary, serialize_copy_string,
}

-- What follows a first byte is a byte that goes on with the character.
lead_bounds : (b more lo hi : ℕ) → lead b ≡ some (more, lo, hi) → (0x80 ≤ lo) × (hi ≤ 0xbf)
unfolding lead
lead_bounds b more lo hi h = ground arith

-- A first byte does not go on with a character.
pub lead_starts : (b : ℕ) → continues b ≡ true → lead b ≡ none
unfolding lead
lead_starts b h = ground arith

module _ (b : ℕ) (bs : List ℕ) (lo hi : ℕ) where
  utf8_from-lead :
      (more lo' hi' : ℕ)
      → lead b ≡ some (more, lo', hi')
      → utf8_from (b ∷ bs) 0 lo hi ≡ utf8_from bs more lo' hi'
  unfolding utf8_from
  utf8_from-lead more lo' hi' e = rw (e, utf8_from) refl

  utf8_from-no_lead : lead b ≡ none → utf8_from (b ∷ bs) 0 lo hi ≡ false
  unfolding utf8_from
  utf8_from-no_lead e = rw (e, utf8_from) refl

-- Well-formed text cut where a character starts is well-formed.
utf8_from-take :
    (bs : List ℕ) (index more lo hi : ℕ)
    → 0x80 ≤ lo
    → hi ≤ 0xbf
    → utf8_from bs more lo hi ≡ true
    → starts_at bs index ≡ true
    → utf8_from (take index bs) more lo hi ≡ true
unfolding utf8_from starts_at
utf8_from-take [] zero zero lo hi p q h s = refl
utf8_from-take [] zero (suc more) lo hi p q h s = h
utf8_from-take [] (suc index) more lo hi p q h s = absurd (ground arith)
utf8_from-take (b ∷ bs) zero zero lo hi p q h s = refl
utf8_from-take (b ∷ bs) zero (suc more) lo hi p q h s = absurd (ground arith)
utf8_from-take (b ∷ bs) (suc index) zero lo hi p q h s = elim (Option-cases (lead b)) [
  | inl none_fits ↦ absurd (cc (h, utf8_from-no_lead b bs lo hi none_fits))
  | inr ((more, lo', hi'), fits) ↦
      let (low, high) = lead_bounds b more lo' hi' fits in
      utf8_from-lead b (take index bs) lo hi more lo' hi' fits
      ∙ utf8_from-take bs index more lo' hi' low high
          (sym (utf8_from-lead b bs lo hi more lo' hi' fits) ∙ h) s
]
utf8_from-take (b ∷ bs) (suc index) (suc more) lo hi p q h s =
    ground (arith, utf8_from-take bs index more 0x80 0xbf)

-- So is text cut at a NUL, which no character of more than one byte holds.
utf8_from-up_to_nul :
    (bs : List ℕ) (more lo hi : ℕ)
    → 0x80 ≤ lo
    → utf8_from bs more lo hi ≡ true
    → utf8_from (up_to_nul bs) more lo hi ≡ true
unfolding utf8_from up_to_nul
utf8_from-up_to_nul [] more lo hi p h = h
utf8_from-up_to_nul (b ∷ bs) zero lo hi p h = elim (Bool-cases (b == 0)) [
  | inl nul ↦ rw nul refl
  | inr other ↦ rw other (elim (Option-cases (lead b)) [
    | inl none_fits ↦ absurd (cc (h, utf8_from-no_lead b bs lo hi none_fits))
    | inr ((more, lo', hi'), fits) ↦
        utf8_from-lead b (up_to_nul bs) lo hi more lo' hi' fits
        ∙ utf8_from-up_to_nul bs more lo' hi' (lead_bounds b more lo' hi' fits).0
            (sym (utf8_from-lead b bs lo hi more lo' hi' fits) ∙ h)
  ])
]
utf8_from-up_to_nul (b ∷ bs) (suc more) lo hi p h =
    ground (arith, utf8_from-up_to_nul bs more 0x80 0xbf)

up_to_nul-has_nul : (bs : List ℕ) → has_nul (up_to_nul bs) ≡ false
unfolding up_to_nul
up_to_nul-has_nul [] = refl
up_to_nul-has_nul (b ∷ bs) = ground (arith, up_to_nul-has_nul bs)

take-has_nul : (n : ℕ) (bs : List ℕ) → has_nul bs ≡ false → has_nul (take n bs) ≡ false
take-has_nul zero bs h = refl
take-has_nul (suc n) [] h = refl
take-has_nul (suc n) (b ∷ bs) h = ground (arith, take-has_nul n bs)

take-up_to_nul :
    (n : ℕ) (bs : List ℕ) → n ≤ length (up_to_nul bs) → take n (up_to_nul bs) ≡ take n bs
unfolding up_to_nul
take-up_to_nul zero bs h = refl
take-up_to_nul (suc n) [] h = refl
take-up_to_nul (suc n) (b ∷ bs) h = elim (Bool-cases (b == 0)) [
  | inl nul ↦ absurd (ground arith)
  | inr other ↦ rw other (ap (λ (t : List ℕ). b ∷ t) (take-up_to_nul n bs (ground arith)))
]

floor_boundary_lem :
    (source : List ℕ) (end : ℕ)
    → (floor_boundary source end ≤ end)
      × (is_char_boundary source (floor_boundary source end) ≡ true)
unfolding floor_boundary is_char_boundary
floor_boundary_lem source zero = (omega arith, refl)
floor_boundary_lem source (suc end) = ground (arith, floor_boundary_lem source end)

floor_boundary-highest :
    (source : List ℕ) (end index : ℕ)
    → index ≤ end
    → is_char_boundary source index ≡ true
    → index ≤ floor_boundary source end
unfolding floor_boundary
floor_boundary-highest source zero index h b = h
floor_boundary-highest source (suc end) index h b = elim (ℕ_discrete index (suc end)) [
  | yes same ↦ ground (arith, ap (is_char_boundary source) same)
  | no other ↦ ground (arith, floor_boundary-highest source end index (omega arith) b)
]

-- `dest` is the longest piece of `text` that a field of `buffer_size` carries.
pub record Carries (text : List ℕ) (buffer_size : ℕ) (dest : List ℕ) : Type 0 where
  pub well_formed : is_utf8 dest ≡ true
  pub no_nul : has_nul dest ≡ false
  pub fits : length dest < buffer_size
  pub prefix : dest ≡ take (length dest) text
  pub longest :
      (n : ℕ)
      → n < buffer_size
      → n ≤ length (up_to_nul text)
      → is_char_boundary (up_to_nul text) n ≡ true
      → n ≤ length dest

starts_at_lem :
    (bs : List ℕ) (index : ℕ)
    → is_utf8 bs ≡ true
    → is_char_boundary bs index ≡ true
    → starts_at bs index ≡ true
unfolding is_char_boundary starts_at
starts_at_lem [] zero h b = refl
starts_at_lem (c ∷ bs) zero h b = elim (Bool-cases (continues c)) [
  | inl goes_on ↦ absurd (cc (h, utf8_from-no_lead c bs 0x80 0xbf (lead_starts c goes_on)))
  | inr starts ↦ rw starts refl
]
starts_at_lem bs (suc index) h b = ground (arith)

-- `serialize_copy_string` of a well-formed source and a buffer size of at least 1, in either
-- build: no panic; what is copied is well-formed UTF-8, has no NUL, is shorter than the buffer
-- size, is the beginning of the source, and is the longest such that ends at a character
-- boundary of the source's text up to its first NUL.
pub serialize_copy_string-Carries :
    (checked : Bool) (source : List ℕ) (buffer_size : ℕ)
    → is_utf8 source ≡ true
    → 1 ≤ buffer_size
    → (dest : List ℕ) × (serialize_copy_string checked source buffer_size ≡ some dest)
      × Carries source buffer_size dest
unfolding serialize_copy_string
serialize_copy_string-Carries checked source buffer_size h p =
    let (low, boundary) = floor_boundary_lem text most in
    let width : length (take end text) ≡ end = omega (arith, length-take end text, low) in
    (
      take end text,
      ground (arith),
      record {
        well_formed =
            utf8_from-take text end 0 0x80 0xbf (omega arith) (omega arith) whole
              (starts_at_lem text end whole boundary);
        no_nul = take-has_nul end text (up_to_nul-has_nul source);
        fits = omega (arith, width, low);
        prefix =
            take-up_to_nul end source (omega (arith, low))
            ∙ ap (λ (n : ℕ). take n source) (sym width);
        longest = λ n small inside b.
            omega (arith, width, floor_boundary-highest text most n (omega arith) b);
      },
    )
  where
    text : List ℕ
    text = up_to_nul source

    most : ℕ
    most = min (length text) (buffer_size - 1)

    end : ℕ
    end = floor_boundary text most

    whole : is_utf8 text ≡ true
    whole = utf8_from-up_to_nul source 0 0x80 0xbf (omega arith) h
