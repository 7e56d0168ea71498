-- ===== src/ReadStream/Runs.antt =====
-- Sequences of operations on a `ReadStream` of src/read_stream.rs, in any order and with any
-- arguments of their types.
use serialize_rs.Base.{
  ◌≤◌, ℕ, ◌^◌, ◌<◌, ◌≡◌, refl, ap, sym, ◌∙◌, arith, Bool, none, some, List, leb, ◌==◌, inl, inr,
  Bool-cases, Option-cases,
}
use mathlib.Core.Path.{subst}
use native.Mathlib.Nat.{le_refl}
use serialize_rs.Base.Int.{ℤ, IsSigned}
use serialize_rs.Error.{Error}
use serialize_rs.Outcome.{Outcome, ok, err, panic}
use serialize_rs.BitReader.Valid.{IsValid, field, advance}
use serialize_rs.Stream.Raw.{serialize_bits64, serialize_bool}
use serialize_rs.Stream.Ranged.{serialize_int, serialize_int64}
use serialize_rs.Stream.Wide.{serialize_u128, serialize_int128, serialize_f32, serialize_f64}
use serialize_rs.Stream.Fixed.{FixedPointStorage, serialize_fixed}
use serialize_rs.ReadStream.Fixed.{serialize_fixed-Obeys}
use serialize_rs.Stream.Relative.{serialize_int_relative}
use serialize_rs.ReadStream.{
  ReadStream, read_stream, serialize_bits, serialize_align, serialize_bytes, serialize_end, latch,
  first_reason,
}
use serialize_rs.ReadStream.Strings.{serialize_string}
use serialize_rs.ReadStream.Obligations.{Follows, Follows-refl, Follows-trans, Obeys, latch-Obeys}
use serialize_rs.ReadStream.Basic.{
  moved, serialize_bits-Obeys, serialize_align-Obeys, serialize_bytes-Obeys,
}
use serialize_rs.ReadStream.Raw.{serialize_bits64-Obeys, serialize_bool-Obeys}
use serialize_rs.ReadStream.Ranged.{serialize_int-Obeys, serialize_int64-Obeys}
use serialize_rs.ReadStream.Wide.{serialize_u128-Obeys, serialize_int128-Obeys}
use serialize_rs.ReadStream.Floats.{serialize_f32-Obeys, serialize_f64-Obeys}
use serialize_rs.ReadStream.Relative.{serialize_int_relative-Obeys}
use serialize_rs.ReadStream.Text.{serialize_string-Obeys}
use serialize_rs.ReadStream.End.{serialize_end_lem, end_failed, to_end}

-- The operation returns, on `Ok` or on `Err`, with the stream `t`.
abbrev pub Leaves : {A : Type 0} → Outcome A ReadStream → ReadStream → Type 0
Leaves (ok a u) t = u ≡ t
Leaves (err e a u) t = u ≡ t
Leaves panic t = ⊥

-- One operation, whatever becomes of its result.
pub data Step (checked : Bool) (s t : ReadStream) : Type 0 where
  bits_step :
      (dest bits : ℕ)
      → bits < 2 ^ 32
      → Leaves (serialize_bits checked dest bits s) t
      → Step checked s t
  bits64_step :
      (dest bits : ℕ)
      → Leaves (serialize_bits64 (read_stream checked) dest bits s) t
      → Step checked s t
  bool_step :
      (dest : Bool) → Leaves (serialize_bool (read_stream checked) dest s) t → Step checked s t
  int_step :
      (dest min max : ℤ)
      → IsSigned 32 min
      → IsSigned 32 max
      → Leaves (serialize_int (read_stream checked) dest min max s) t
      → Step checked s t
  int64_step :
      (dest min max : ℤ)
      → IsSigned 64 min
      → IsSigned 64 max
      → Leaves (serialize_int64 (read_stream checked) dest min max s) t
      → Step checked s t
  int128_step :
      (dest min max : ℤ)
      → IsSigned 128 min
      → IsSigned 128 max
      → Leaves (serialize_int128 (read_stream checked) dest min max s) t
      → Step checked s t
  u128_step : (dest : ℕ) → Leaves (serialize_u128 (read_stream checked) dest s) t → Step checked s t
  f32_step : (dest : ℕ) → Leaves (serialize_f32 (read_stream checked) dest s) t → Step checked s t
  f64_step : (dest : ℕ) → Leaves (serialize_f64 (read_stream checked) dest s) t → Step checked s t
  relative_step :
      (previous dest : ℤ)
      → Leaves (serialize_int_relative (read_stream checked) previous dest s) t
      → Step checked s t
  fixed_step :
      (storage : FixedPointStorage) (dest : ℤ) (integer_bits fraction_bits : ℕ)
      (min_units max_units : ℤ)
      → storage.bits ≤ 128
      → IsSigned 64 min_units
      → IsSigned 64 max_units
      → Leaves
          (serialize_fixed
            (read_stream checked)
            storage
            dest
            integer_bits
            fraction_bits
            min_units
            max_units
            s)
          t
      → Step checked s t
  align_step : Leaves (serialize_align checked s) t → Step checked s t
  bytes_step : (dest : List ℕ) → Leaves (serialize_bytes checked dest s) t → Step checked s t
  string_step :
      (dest : List ℕ) (buffer_size : ℕ)
      → Leaves (serialize_string checked dest buffer_size s) t
      → Step checked s t
  fail_step : (error : Error) → Leaves (latch error s) t → Step checked s t
  end_step : Leaves (serialize_end checked s) t → Step checked s t

pub data Run (checked : Bool) : ReadStream → ReadStream → Type 0 where
  done : {s : ReadStream} → Run checked s s
  next : {s t u : ReadStream} → Step checked s t → Run checked t u → Run checked s u

-- What every step keeps: the packet and a reader inside it that does not move back; and where the
-- stream had failed, everything.
pub record Keeps (s t : ReadStream) : Type 0 where
  pub follows : Follows s t
  pub frozen : (first : Error) → s.failed ≡ some first → t ≡ s

Obeys-Keeps :
    {A : Type 0} (P : A → ReadStream → Type 0) (dest : A) (s t : ReadStream)
    (o : Outcome A ReadStream)
    → Obeys P dest s o
    → Leaves o t
    → Keeps s t
Obeys-Keeps P dest s t (ok a u) h e = record {
  follows = subst (Follows s) e h.follows;
  frozen = λ first failed. absurd (cc (failed, h.was_fresh));
}
Obeys-Keeps P dest s t (err r a u) h e = record {
  follows = subst (Follows s) e h.follows;
  frozen = λ first failed. sym e ∙ (h.terminal first failed).1;
}
Obeys-Keeps P dest s t panic h e = absurd e

end-Keeps :
    (checked : Bool) (s t : ReadStream)
    → IsValid s.reader
    → Leaves (serialize_end checked s) t
    → Keeps s t
end-Keeps checked s t valid = elim (Option-cases s.failed) [
  | inr (first, failed) ↦ rw (end_failed checked s first failed) (λ left. record {
    follows = subst (Follows s) left (Follows-refl valid);
    frozen = λ _ _. sym left;
  })
  | inl fresh ↦ rw (serialize_end_lem checked valid fresh) (elim (Bool-cases (leb 8 (to_end s))) [
    | inl long ↦ rw long (ended s t valid fresh (latched s valid))
    | inr short ↦ elim (Bool-cases (field s.reader (to_end s) == 0)) [
      | inl zeros ↦ rw (short, zeros) (ended s t valid fresh (at_end s valid))
      | inr ones ↦ rw (short, ones) (ended s t valid fresh (latched_at_end s valid))
    ]
  ])
]
  where
    ended :
        (s t : ReadStream) {u : ReadStream}
        → IsValid s.reader
        → s.failed ≡ none
        → Follows s u
        → u ≡ t
        → Keeps s t
    ended s t valid fresh follows left = record {
      follows = subst (Follows s) left follows;
      frozen = λ first failed. absurd (cc (failed, fresh));
    }

    latched :
        {error : Error} (s : ReadStream)
        → IsValid s.reader
        → Follows s (record s { failed = some error })
    latched s valid = record {
      valid = valid;
      forward = le_refl _;
      same_size = refl;
      same_buffer = refl;
    }

    at_end :
        (s : ReadStream)
        → IsValid s.reader
        → Follows s (record s { reader = advance s.reader (to_end s) })
    at_end s valid = moved (to_end s) valid (omega (arith, valid.within))

    latched_at_end :
        {error : Error} (s : ReadStream)
        → IsValid s.reader
        → Follows s (record { reader = advance s.reader (to_end s); failed = some error })
    latched_at_end s valid =
        let m = at_end s valid in
        record { valid = m.valid; forward = m.forward; same_size = refl; same_buffer = refl }

module _ (checked : Bool) where
  Step-Keeps : {s t : ReadStream} → IsValid s.reader → Step checked s t → Keeps s t
  Step-Keeps {s} {t} valid (bits_step dest bits word left) =
      Obeys-Keeps _ dest s t _ (serialize_bits-Obeys checked dest bits s valid word) left
  Step-Keeps {s} {t} valid (bits64_step dest bits left) =
      Obeys-Keeps _ dest s t _ (serialize_bits64-Obeys checked dest bits s valid) left
  Step-Keeps {s} {t} valid (bool_step dest left) =
      Obeys-Keeps _ dest s t _ (serialize_bool-Obeys checked dest s valid) left
  Step-Keeps {s} {t} valid (int_step dest min max lo hi left) =
      Obeys-Keeps _ dest s t _ (serialize_int-Obeys checked dest min max s lo hi valid) left
  Step-Keeps {s} {t} valid (int64_step dest min max lo hi left) =
      Obeys-Keeps _ dest s t _ (serialize_int64-Obeys checked dest min max s lo hi valid) left
  Step-Keeps {s} {t} valid (int128_step dest min max lo hi left) =
      Obeys-Keeps _ dest s t _ (serialize_int128-Obeys checked dest min max s lo hi valid) left
  Step-Keeps {s} {t} valid (u128_step dest left) =
      Obeys-Keeps _ dest s t _ (serialize_u128-Obeys checked dest s valid) left
  Step-Keeps {s} {t} valid (f32_step dest left) =
      Obeys-Keeps _ dest s t _ (serialize_f32-Obeys checked dest s valid) left
  Step-Keeps {s} {t} valid (f64_step dest left) =
      Obeys-Keeps _ dest s t _ (serialize_f64-Obeys checked dest s valid) left
  Step-Keeps {s} {t} valid (relative_step previous dest left) =
      Obeys-Keeps _ dest s t _ (serialize_int_relative-Obeys checked previous dest s valid) left
  Step-Keeps {s} {t} valid (fixed_step storage dest i f min max most lo hi left) =
      Obeys-Keeps _ dest s t _
        (serialize_fixed-Obeys checked storage i f min max dest s lo hi most valid) left
  Step-Keeps {s} {t} valid (align_step left) =
      Obeys-Keeps _ tt s t _ (serialize_align-Obeys checked s valid) left
  Step-Keeps {s} {t} valid (bytes_step dest left) =
      Obeys-Keeps _ dest s t _ (serialize_bytes-Obeys checked dest s valid) left
  Step-Keeps {s} {t} valid (string_step dest buffer_size left) =
      Obeys-Keeps _ dest s t _ (serialize_string-Obeys checked dest buffer_size s valid) left
  Step-Keeps {s} {t} valid (fail_step error left) =
      Obeys-Keeps (λ _ _. ⊥) tt s t _ (latch-Obeys (λ _ _. ⊥) error s valid) left
  Step-Keeps {s} {t} valid (end_step left) = end-Keeps checked s t valid left

  -- Whatever operations run on a `ReadStream` with a valid reader (every read but that of a
  -- compressed float, aligns, bytes, strings, the end, refusals by the caller), in any order,
  -- any number, with any arguments of their types, in either build and whether they accept or
  -- refuse: the reader stays valid over the same packet, of the same size, and does not move
  -- back.
  pub Run-Follows : {s t : ReadStream} → IsValid s.reader → Run checked s t → Follows s t
  Run-Follows valid done = Follows-refl valid
  Run-Follows valid (next step run) =
      let kept = Step-Keeps valid step in
      Follows-trans kept.follows (Run-Follows kept.follows.valid run)

  -- Failure is terminal. Once a `ReadStream` with a valid reader has latched a reason, no
  -- sequence of operations (every read but that of a compressed float, aligns, bytes, strings,
  -- the end, refusals by the caller), in any order, any number, with any arguments of their
  -- types, in either build, changes the stream: its first reason and its position stay as they
  -- are.
  pub Run-failed :
      {s t : ReadStream} (first : Error)
      → IsValid s.reader
      → s.failed ≡ some first
      → Run checked s t
      → t ≡ s
  Run-failed first valid failed done = refl
  Run-failed first valid failed (next step run) =
      let kept = Step-Keeps valid step in
      let same = kept.frozen first failed in
      Run-failed first kept.follows.valid (ap (λ z. z.failed) same ∙ failed) run ∙ same

-- A refusal by hand, and any operation on a stream that has failed.
pub latch_fresh :
    (error : Error) (s : ReadStream)
    → s.failed ≡ none
    → Leaves (latch error s) (record s { failed = some error })
unfolding latch
latch_fresh error s fresh = ap (λ f. record s { failed = some (first_reason f error) }) fresh

pub Obeys-frozen :
    {A : Type 0} (P : A → ReadStream → Type 0) (dest : A) (s : ReadStream) (first : Error)
    (o : Outcome A ReadStream)
    → s.failed ≡ some first
    → Obeys P dest s o
    → Leaves o s
Obeys-frozen P dest s first (ok a u) failed h = absurd (cc (failed, h.was_fresh))
Obeys-frozen P dest s first (err e a u) failed h = (h.terminal first failed).1
Obeys-frozen P dest s first panic failed h = h
