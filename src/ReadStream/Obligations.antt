-- ===== src/ReadStream/Obligations.antt =====
-- The obligations of a read on the `ReadStream` of src/read_stream.rs: what it may do on a stream
-- that has failed and on one that has not, and to its destination.
use serialize_rs.Base.{◌≤◌, ◌≡◌, refl, ap, sym, ◌∙◌, none, some}
use native.Mathlib.Nat.{le_refl, le_trans}
use serialize_rs.Error.{Error}
use serialize_rs.Outcome.{Outcome, ok, err, panic, attempt}
use serialize_rs.BitReader.Valid.{IsValid}
use serialize_rs.ReadStream.{ReadStream, latch, first_reason}

-- `s'` is `s` later on, over the same packet.
pub record Follows (s s' : ReadStream) : Type 0 where
  pub valid : IsValid s'.reader
  pub forward : s.reader.bits_read ≤ s'.reader.bits_read
  pub same_size : s'.reader.num_bits ≡ s.reader.num_bits
  pub same_buffer : s'.reader.buffer ≡ s.reader.buffer

pub record Accepted {A : Type 0} (P : A → ReadStream → Type 0) (s : ReadStream) (a : A)
    (s' : ReadStream) : Type 0 where
  pub value : P a s'
  pub was_fresh : s.failed ≡ none
  pub is_fresh : s'.failed ≡ none
  pub follows : Follows s s'

pub record Refused {A : Type 0} (dest : A) (s : ReadStream) (e : Error) (a : A) (s' : ReadStream)
    : Type 0 where
  pub unwritten : a ≡ dest
  pub latched : s'.failed ≡ some e
  pub follows : Follows s s'
  pub terminal : (first : Error) → s.failed ≡ some first → (e ≡ first) × (s' ≡ s)

abbrev pub Obeys :
    {A : Type 0} → (A → ReadStream → Type 0) → A → ReadStream → Outcome A ReadStream → Type 0
Obeys P dest s (ok a s') = Accepted P s a s'
Obeys P dest s (err e a s') = Refused dest s e a s'
Obeys P dest s panic = ⊥

pub Follows-refl : {s : ReadStream} → IsValid s.reader → Follows s s
Follows-refl v = record { valid = v; forward = le_refl _; same_size = refl; same_buffer = refl }

pub Follows-trans : {s t u : ReadStream} → Follows s t → Follows t u → Follows s u
Follows-trans f g = record {
  valid = g.valid;
  forward = le_trans f.forward g.forward;
  same_size = g.same_size ∙ f.same_size;
  same_buffer = g.same_buffer ∙ f.same_buffer;
}

-- Once a read has been accepted, the stream had not failed: a later refusal is its first.
Refused-after :
    {A : Type 0} {dest : A} {s t : ReadStream} {e : Error} {a : A} {u : ReadStream}
    → s.failed ≡ none
    → Follows s t
    → Refused dest t e a u
    → Refused dest s e a u
Refused-after fresh f r = record {
  unwritten = r.unwritten;
  latched = r.latched;
  follows = Follows-trans f r.follows;
  terminal = λ first h. cc fresh;
}

pub Obeys-after :
    {A : Type 0} (Q : A → ReadStream → Type 0) (dest : A) (s t : ReadStream)
    (o : Outcome A ReadStream)
    → s.failed ≡ none
    → Follows s t
    → Obeys Q dest t o
    → Obeys Q dest s o
Obeys-after Q dest s t (ok a u) fresh f h = record {
  value = h.value;
  was_fresh = fresh;
  is_fresh = h.is_fresh;
  follows = Follows-trans f h.follows;
}
Obeys-after Q dest s t (err e a u) fresh f h = Refused-after fresh f h
Obeys-after Q dest s t panic fresh f h = h

-- A weaker promise.
pub Obeys-weaken :
    {A : Type 0} (P Q : A → ReadStream → Type 0) (dest : A) (s : ReadStream)
    (o : Outcome A ReadStream)
    → ((a : A) (t : ReadStream) → P a t → Q a t)
    → Obeys P dest s o
    → Obeys Q dest s o
Obeys-weaken P Q dest s (ok a t) implies h = record {
  value = implies a t h.value;
  was_fresh = h.was_fresh;
  is_fresh = h.is_fresh;
  follows = h.follows;
}
Obeys-weaken P Q dest s (err e a t) implies h = h
Obeys-weaken P Q dest s panic implies h = h

-- The rule for `?`.
pub Obeys-attempt :
    {A B : Type 0} (P : B → ReadStream → Type 0) (Q : A → ReadStream → Type 0) (dest : A) (temp : B)
    (s : ReadStream) (o : Outcome B ReadStream) (next : B → ReadStream → Outcome A ReadStream)
    → Obeys P temp s o
    → ((b : B) (t : ReadStream)
        → P b t
        → IsValid t.reader
        → t.failed ≡ none
        → Obeys Q dest t (next b t))
    → Obeys Q dest s (attempt dest o next)
Obeys-attempt P Q dest temp s (ok b t) next h k =
    Obeys-after Q dest s t (next b t) h.was_fresh h.follows
      (k b t h.value h.follows.valid h.is_fresh)
Obeys-attempt P Q dest temp s (err e b t) next h k = record {
  unwritten = refl;
  latched = h.latched;
  follows = h.follows;
  terminal = h.terminal;
}
Obeys-attempt P Q dest temp s panic next h k = h

-- Latching refuses.
pub latch-Obeys :
    (P : Unit {0} → ReadStream → Type 0) (error : Error) (s : ReadStream)
    → IsValid s.reader
    → Obeys P tt s (latch error s)
unfolding latch
latch-Obeys P error s v = record {
  unwritten = refl;
  latched = refl;
  follows = record { valid = v; forward = le_refl _; same_size = refl; same_buffer = refl };
  terminal = λ first h. (
    ap (λ f. first_reason f error) h,
    ap (λ f. record s { failed = some (first_reason f error) }) h
        ∙ ap (λ f. record s { failed = f }) (sym h),
  );
}
