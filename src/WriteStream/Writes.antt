-- ===== src/WriteStream/Writes.antt =====
-- What a write that succeeds does to the stream, and how writes compose.
use serialize_rs.Base.{ℕ, ◌+◌, ◌*◌, ◌^◌, ◌≡◌, refl, ap, ◌∙◌, arith, Option, pow-add}
use serialize_rs.Outcome.{Outcome, ok, attempt, attempt_into, enter}
use serialize_rs.BitWriter.{BitWriter}
use serialize_rs.BitWriter.Valid.{IsValid, written, Appends}
use serialize_rs.WriteStream.{WriteStream}

-- The operation returns `value`, and has appended the `bits` low bits of `code`.
pub record Writes {A : Type 0} (s : WriteStream) (value : A) (code bits : ℕ)
    (o : Outcome A WriteStream) : Type 0 where
  pub out : WriteStream
  pub returns : o ≡ ok value out
  pub valid : IsValid out.writer
  pub appended : written out.writer ≡ written s.writer + 2 ^ s.writer.bits_written * code
  pub counted : out.writer.bits_written ≡ s.writer.bits_written + bits
  pub same_size : out.writer.num_bits ≡ s.writer.num_bits

pub Writes-enter :
    {A : Type 0} {s : WriteStream} (value : A) {code bits : ℕ} {r : Option BitWriter}
    → Appends s.writer code bits r
    → Writes s value code bits (enter r (λ writer. ok value (record { writer = writer })))
Writes-enter value a = record {
  out = record { writer = a.out };
  returns = ap (λ r. enter r (λ writer. ok value (record { writer = writer }))) a.returns;
  valid = a.valid;
  appended = a.appended;
  counted = a.counted;
  same_size = a.same_size;
}

pub Writes-none :
    {A : Type 0} {s : WriteStream} (value : A) → IsValid s.writer → Writes s value 0 0 (ok value s)
Writes-none {s} value v = record {
  out = s;
  returns = refl;
  valid = v;
  appended = omega arith;
  counted = omega arith;
  same_size = refl;
}

module _ {A : Type 0} {s : WriteStream} {value : A} {code bits : ℕ} {o : Outcome A WriteStream}
    (a : Writes s value code bits o) where
  pub Writes-as :
      {code' bits' : ℕ} {o' : Outcome A WriteStream}
      → code ≡ code'
      → bits ≡ bits'
      → o' ≡ o
      → Writes s value code' bits' o'
  Writes-as p q e = record {
    out = a.out;
    returns = e ∙ a.returns;
    valid = a.valid;
    appended = a.appended ∙ ap (λ (t : ℕ). written s.writer + 2 ^ s.writer.bits_written * t) p;
    counted = a.counted ∙ ap (λ (t : ℕ). s.writer.bits_written + t) q;
    same_size = a.same_size;
  }

  -- What the rules for `?` share.
  Writes-next :
      {B : Type 0} {result : B} {more n : ℕ} (o' : Outcome B WriteStream)
      (next : A → WriteStream → Outcome B WriteStream)
      → o' ≡ next value a.out
      → Writes a.out result more n (next value a.out)
      → Writes s result (code + 2 ^ bits * more) (bits + n) o'
  Writes-next {more = more} o' next e b = record {
    out = b.out;
    returns = e ∙ b.returns;
    valid = b.valid;
    appended = omega (
      arith,
      a.appended,
      b.appended,
      ap (λ (t : ℕ). t * more)
          (ap (λ (t : ℕ). 2 ^ t) a.counted ∙ pow-add s.writer.bits_written bits),
    );
    counted = omega (arith, a.counted, b.counted);
    same_size = b.same_size ∙ a.same_size;
  }

  pub Writes-attempt :
      {B : Type 0} {result : B} {more n : ℕ} (dest : B)
      (next : A → WriteStream → Outcome B WriteStream)
      → Writes a.out result more n (next value a.out)
      → Writes s result (code + 2 ^ bits * more) (bits + n) (attempt dest o next)
  Writes-attempt dest next b =
      Writes-next (attempt dest o next) next (ap (λ r. attempt dest r next) a.returns) b

  pub Writes-into :
      {B : Type 0} {result : B} {more n : ℕ} (into : A → B)
      (next : A → WriteStream → Outcome B WriteStream)
      → Writes a.out result more n (next value a.out)
      → Writes s result (code + 2 ^ bits * more) (bits + n) (attempt_into into o next)
  Writes-into into next b =
      Writes-next (attempt_into into o next) next (ap (λ r. attempt_into into r next) a.returns) b

  -- Where what follows moves no bits.
  moved_by :
      {B : Type 0} {result : B} (o' : Outcome B WriteStream)
      → o' ≡ ok result a.out
      → Writes s result code bits o'
  moved_by o' e = record {
    out = a.out;
    returns = e;
    valid = a.valid;
    appended = a.appended;
    counted = a.counted;
    same_size = a.same_size;
  }

  pub Writes-last :
      {B : Type 0} {result : B} (dest : B) (next : A → WriteStream → Outcome B WriteStream)
      → next value a.out ≡ ok result a.out
      → Writes s result code bits (attempt dest o next)
  Writes-last dest next e = moved_by _ (ap (λ r. attempt dest r next) a.returns ∙ e)

  pub Writes-last_into :
      {B : Type 0} {result : B} (into : A → B) (next : A → WriteStream → Outcome B WriteStream)
      → next value a.out ≡ ok result a.out
      → Writes s result code bits (attempt_into into o next)
  Writes-last_into into next e = moved_by _ (ap (λ r. attempt_into into r next) a.returns ∙ e)
