-- ===== src/ReadStream/Object.antt =====
-- About `serialize_object` of src/read_stream.rs: the failure gate on both sides of a nested object.
use serialize_rs.Base.{◌≡◌, ◌⊎◌, refl, ap, sym, ◌∙◌, none, some, inl, inr, Option-cases}
use serialize_rs.Error.{Error}
use serialize_rs.Outcome.{Outcome, ok, err, panic}
use serialize_rs.ReadStream.{
  ReadStream, serialize_object, after_object, refuse_if_latched, latch, first_reason,
}
use serialize_rs.ReadStream.Basic.{gate_fresh, gate_failed}

-- The object and the stream as the object's own function leaves them, whatever it returns.
abbrev pub Leaves : {A : Type 0} → Outcome A ReadStream → A → ReadStream → Type 0
Leaves ran a t = (ran ≡ ok a t) ⊎ ((own : Error) × (ran ≡ err own a t))

-- The refusal of a nested object: the reader is where the object's function left it, and the reason
-- is the first that was latched or, where none was, the error that the function returned.
pub record Refused {A : Type 0} (ran : Outcome A ReadStream) (e : Error) (a : A) (u : ReadStream)
    : Type 0 where
  pub left : ReadStream
  pub leaves : Leaves ran a left
  pub same_reader : u.reader ≡ left.reader
  pub latched : u.failed ≡ some e
  pub reason : (left.failed ≡ some e) ⊎ ((left.failed ≡ none) × (ran ≡ err e a left))

-- What is made of a function's own outcome.
abbrev pub Settles : {A : Type 0} → Outcome A ReadStream → Outcome A ReadStream → Type 0
Settles ran (ok a t) = (ran ≡ ok a t) × (t.failed ≡ none)
Settles ran (err e a u) = Refused ran e a u
Settles ran panic = ran ≡ panic

after_refusal :
    {A : Type 0} (error : Error) (value : A) (t : ReadStream)
    → Settles (err error value t) (after_object (err error value t))
unfolding after_object latch refuse_if_latched
after_refusal error value t = record {
  left = t;
  leaves = inr (error, refl);
  same_reader = refl;
  latched = refl;
  reason = elim (Option-cases t.failed) [
    | inl fresh ↦ inr (fresh, ap (λ e. err e value t) (sym (ap (λ o. first_reason o error) fresh)))
    | inr (first, failed) ↦ inl (failed ∙ ap some (sym (ap (λ o. first_reason o error) failed)))
  ];
}

after_object-Settles : {A : Type 0} (ran : Outcome A ReadStream) → Settles ran (after_object ran)
unfolding after_object
after_object-Settles (ok value t) = elim (Option-cases t.failed) [
  | inl fresh ↦ rw (gate_fresh t fresh) (refl, fresh)
  | inr (first, failed) ↦ rw (gate_failed t first failed) (record {
    left = t;
    leaves = inl refl;
    same_reader = refl;
    latched = failed;
    reason = inl failed;
  })
]
after_object-Settles (err error value t) = after_refusal error value t
after_object-Settles panic = refl

-- A stream that has failed refuses for its first reason and keeps object and stream; another runs
-- the object's function.
abbrev pub Gates :
    {A : Type 0}
    → (A → ReadStream → Outcome A ReadStream)
    → A
    → ReadStream
    → Outcome A ReadStream
    → Type 0
Gates object value s result =
    ((first : Error) × (s.failed ≡ some first) × (result ≡ err first value s))
    ⊎ ((s.failed ≡ none) × Settles (object value s) result)

-- `ReadStream::serialize_object`, on any stream, with any object and any function of the
-- object's own. A stream that has failed refuses for its first reason, and neither the object
-- nor the stream changes. Otherwise the function runs, and `serialize_object` panics only where
-- it does; it accepts only if the function returned `Ok` and left a stream that had not failed,
-- and then the object and the stream are the ones that it left; and where it refuses, so for
-- every other outcome of the function, the object and the reader are the ones that the function
-- left, the error returned is the stream's latched reason, and that is the first reason latched
-- or, where the function had latched none, the error that it returned. So an error that was
-- returned without being latched is latched, and `Ok` over a refusal is refused.
pub serialize_object-Gates :
    {A : Type 0} (object : A → ReadStream → Outcome A ReadStream) (value : A) (s : ReadStream)
    → Gates object value s (serialize_object object value s)
unfolding serialize_object
serialize_object-Gates object value s = elim (Option-cases s.failed) [
  | inl fresh ↦ rw (gate_fresh s fresh) (inr (fresh, after_object-Settles (object value s)))
  | inr (first, failed) ↦ rw (gate_failed s first failed) (inl (first, failed, refl))
]
