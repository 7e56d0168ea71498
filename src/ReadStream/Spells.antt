-- ===== src/ReadStream/Spells.antt =====
-- What an accepted read has consumed: the bits that it stands behind, and the number that they
-- spell.
pub mod Basic
pub mod Raw
pub mod Wide
pub mod Ranged
pub mod Relative
pub mod Blocks
pub mod Groups
pub mod Fixed
use serialize_rs.Base.{
  ℕ, ◌+◌, ◌*◌, ◌/◌, ◌%◌, ◌^◌, ◌≤◌, ◌<◌, ◌≡◌, refl, ap, ap₂, sym, ◌∙◌, arith, none, pow_pos,
}
use mathlib.Core.Path.{subst}
use native.Mathlib.Nat.{div-add-mod, mod-lt}
use serialize_rs.Error.{Error}
use serialize_rs.Outcome.{Outcome, ok, err, panic, attempt, attempt_into}
use serialize_rs.BitReader.{BitReader}
use serialize_rs.BitReader.Valid.{IsValid, field, advance, advance-IsValid}
use serialize_rs.ReadStream.{ReadStream, latch}
use serialize_rs.ReadStream.Basic.{field-lt}
use serialize_rs.ReadStream.Sees.{Sees, past, Sees-as, field_low, field_high}

-- `t` stands behind `s`, which had not failed, past `bits` bits that spell `code`.
pub record Spells (s : ReadStream) (code bits : ℕ) (t : ReadStream) : Type 0 where
  pub seen : Sees s code bits
  pub lands : t ≡ past s bits

-- What holds of an accepted value and the stream behind it.
abbrev pub Yields : {A : Type 0} → (A → ReadStream → Type 0) → Outcome A ReadStream → Type 0
Yields R (ok a t) = R a t
Yields R (err e a t) = Unit {0}
Yields R panic = Unit {0}

-- Less is promised.
pub Yields-weaken :
    {A : Type 0} (R Q : A → ReadStream → Type 0) (o : Outcome A ReadStream)
    → ((a : A) (t : ReadStream) → R a t → Q a t)
    → Yields R o
    → Yields Q o
Yields-weaken R Q (ok a t) implies h = implies a t h
Yields-weaken R Q (err e a t) implies h = tt
Yields-weaken R Q panic implies h = tt

-- The rules for `?`.
pub Yields-attempt :
    {A B : Type 0} (R : B → ReadStream → Type 0) (Q : A → ReadStream → Type 0) (dest : A)
    (o : Outcome B ReadStream) (next : B → ReadStream → Outcome A ReadStream)
    → Yields R o
    → ((b : B) (t : ReadStream) → R b t → Yields Q (next b t))
    → Yields Q (attempt dest o next)
Yields-attempt R Q dest (ok b t) next h k = k b t h
Yields-attempt R Q dest (err e b t) next h k = tt
Yields-attempt R Q dest panic next h k = tt

pub Yields-into :
    {A B : Type 0} (R : B → ReadStream → Type 0) (Q : A → ReadStream → Type 0) (into : B → A)
    (o : Outcome B ReadStream) (next : B → ReadStream → Outcome A ReadStream)
    → Yields R o
    → ((b : B) (t : ReadStream) → R b t → Yields Q (next b t))
    → Yields Q (attempt_into into o next)
Yields-into R Q into (ok b t) next h k = k b t h
Yields-into R Q into (err e b t) next h k = tt
Yields-into R Q into panic next h k = tt

pub Yields-refused :
    {A : Type 0} (Q : A → ReadStream → Type 0) (dest : A) (error : Error) (s : ReadStream)
    → Yields Q (attempt dest (latch error s) (λ _ s1. ok dest s1))
unfolding latch
Yields-refused Q dest error s = tt

-- Nothing.
pub Spells-none : (s : ReadStream) → IsValid s.reader → s.failed ≡ none → Spells s 0 0 s
unfolding field
Spells-none s valid fresh = record {
  seen = record {
    fresh = fresh;
    valid = valid;
    room = omega (arith, valid.within);
    spelled = omega arith;
  };
  lands = ap (λ (t : ℕ). record s { reader = record (s.reader) { bits_read = t } }) (omega arith);
}

-- The stream behind is as good as the one before.
pub Spells-valid : {s t : ReadStream} {code bits : ℕ} → Spells s code bits t → IsValid t.reader
Spells-valid {bits = bits} h =
    subst (λ z. IsValid z.reader) (sym h.lands) (advance-IsValid bits h.seen.valid h.seen.room)

pub Spells-fresh : {s t : ReadStream} {code bits : ℕ} → Spells s code bits t → t.failed ≡ none
Spells-fresh h = ap (λ z. z.failed) h.lands ∙ h.seen.fresh

pub Spells-position :
    {s t : ReadStream} {code bits : ℕ}
    → Spells s code bits t
    → t.reader.bits_read ≡ s.reader.bits_read + bits
Spells-position h = ap (λ z. z.reader.bits_read) h.lands

pub Spells-lt : {s t : ReadStream} {code bits : ℕ} → Spells s code bits t → code < 2 ^ bits
Spells-lt {s} {bits = bits} h = omega (arith, field-lt s.reader bits, h.seen.spelled)

pub Spells-as :
    {s t : ReadStream} {code bits code' bits' : ℕ}
    → Spells s code bits t
    → code ≡ code'
    → bits ≡ bits'
    → Spells s code' bits' t
Spells-as {s} {code' = code'} {bits' = bits'} h p q = record {
  seen = Sees-as code' bits' p q h.seen;
  lands = h.lands ∙ ap (past s) q;
}

field_split :
    (r : BitReader) (a b : ℕ) → field r (a + b) ≡ field r a + 2 ^ a * field (advance r a) b
field_split r a b = omega (
  arith,
  div-add-mod (field r (a + b)) (2 ^ a),
  field_low r a b,
  ap (λ (t : ℕ). 2 ^ a * t) (field_high r a b),
)

-- One field behind another.
pub Spells-then :
    {s t u : ReadStream} {c b d e : ℕ}
    → Spells s c b t
    → Spells t d e u
    → Spells s (c + 2 ^ b * d) (b + e) u
Spells-then {s} {t} {u} {c} {b} {d} {e} h k =
    let next : Sees (past s b) d e = subst (λ z. Sees z d e) h.lands k.seen in
    record {
      seen = record {
        fresh = h.seen.fresh;
        valid = h.seen.valid;
        room = omega (arith, next.room);
        spelled = field_split s.reader b e ∙ ap₂ (λ m n. m + 2 ^ b * n) h.seen.spelled next.spelled;
      };
      lands =
          k.lands
          ∙ ap (λ z. past z e) h.lands
          ∙ ap (λ (n : ℕ). record s { reader = record (s.reader) { bits_read = n } }) (omega arith);
    }
