-- ===== src/ReadStream/Guards.antt =====
-- Runs of several reads from a `ReadStream` of src/read_stream.rs that has not failed.
use serialize_rs.Base.{◌≡◌, none, some}
use serialize_rs.Error.{Error}
use serialize_rs.Outcome.{Outcome, ok, err, panic, attempt_into}
use serialize_rs.BitReader.Valid.{IsValid}
use serialize_rs.ReadStream.{ReadStream}
use serialize_rs.ReadStream.Obligations.{Follows, Obeys, Follows-refl, Follows-trans}

-- A run that passed has read values as promised; one that stopped has latched the reason. Either
-- way it is inside its packet, and it never panics.
pub record Passed {A : Type 0} (Q : A → Type 0) (s : ReadStream) (a : A) (s' : ReadStream)
    : Type 0 where
  pub value : Q a
  pub is_fresh : s'.failed ≡ none
  pub follows : Follows s s'

pub record Stopped (s : ReadStream) (e : Error) (s' : ReadStream) : Type 0 where
  pub latched : s'.failed ≡ some e
  pub follows : Follows s s'

abbrev pub Guards : {A : Type 0} → (A → Type 0) → ReadStream → Outcome A ReadStream → Type 0
Guards Q s (ok a s') = Passed Q s a s'
Guards Q s (err e a s') = Stopped s e s'
Guards Q s panic = ⊥

pub Guards-after :
    {A : Type 0} (Q : A → Type 0) (s t : ReadStream) (o : Outcome A ReadStream)
    → Follows s t
    → Guards Q t o
    → Guards Q s o
Guards-after Q s t (ok a u) f h = record {
  value = h.value;
  is_fresh = h.is_fresh;
  follows = Follows-trans f h.follows;
}
Guards-after Q s t (err e a u) f h = record {
  latched = h.latched;
  follows = Follows-trans f h.follows;
}
Guards-after Q s t panic f h = h

-- The rule for `?`.
pub Guards-into :
    {A B : Type 0} (P : B → Type 0) (Q : A → Type 0) (into : B → A) (s : ReadStream)
    (o : Outcome B ReadStream) (next : B → ReadStream → Outcome A ReadStream)
    → Guards P s o
    → ((b : B) (t : ReadStream) → P b → IsValid t.reader → t.failed ≡ none → Guards Q t (next b t))
    → Guards Q s (attempt_into into o next)
Guards-into P Q into s (ok b t) next h k =
    Guards-after Q s t (next b t) h.follows (k b t h.value h.follows.valid h.is_fresh)
Guards-into P Q into s (err e b t) next h k = record { latched = h.latched; follows = h.follows }
Guards-into P Q into s panic next h k = h

pub Obeys-Guards :
    {A : Type 0} (P : A → Type 0) (dest : A) (s : ReadStream) (o : Outcome A ReadStream)
    → Obeys (λ a _. P a) dest s o
    → Guards P s o
Obeys-Guards P dest s (ok a t) h = record {
  value = h.value;
  is_fresh = h.is_fresh;
  follows = h.follows;
}
Obeys-Guards P dest s (err e a t) h = record { latched = h.latched; follows = h.follows }
Obeys-Guards P dest s panic h = h

pub passing :
    {A : Type 0} (Q : A → Type 0) (a : A) (s : ReadStream)
    → Q a
    → IsValid s.reader
    → s.failed ≡ none
    → Guards Q s (ok a s)
passing Q a s h valid fresh = record { value = h; is_fresh = fresh; follows = Follows-refl valid }
