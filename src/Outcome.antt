-- ===== src/Outcome.antt =====
-- What an operation on a stream comes to. The operation takes its destination (`&mut value`) and
-- its stream (`&mut self`), and gives both back as it left them, beside `Ok` or `Err`.
use serialize_rs.Base.{Bool, true, false, Option, none, some, if◌then◌else◌}
use serialize_rs.Error.{Error}

pub data Outcome (A S : Type 0) : Type 0 where
  ok : A → S → Outcome A S
  err : Error → A → S → Outcome A S
  panic : Outcome A S

module _ {A B S : Type 0} where
  -- `e?` where the inner operation works on a part of the destination: `into` puts the part back.
  abbrev pub attempt_into : (B → A) → Outcome B S → (B → S → Outcome A S) → Outcome A S
  attempt_into into (ok b s) next = next b s
  attempt_into into (err e b s) next = err e (into b) s
  attempt_into into panic next = panic

  -- `e?` where the inner operation works on a destination of its own, and that of the outer one
  -- holds `dest`.
  abbrev pub attempt : A → Outcome B S → (B → S → Outcome A S) → Outcome A S
  attempt dest (ok b s) next = next b s
  attempt dest (err e b s) next = err e dest s
  attempt dest panic next = panic

  -- The call of a bit packer, on a state of its own.
  abbrev pub enter : Option B → (B → Outcome A S) → Outcome A S
  enter none next = panic
  enter (some b) next = next b

module _ {A S : Type 0} where
  abbrev pub assert_then : Bool → Bool → Outcome A S → Outcome A S
  assert_then checked true next = next
  assert_then checked false next = if checked then panic else next
