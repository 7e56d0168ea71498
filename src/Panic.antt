-- ===== src/Panic.antt =====
-- What a panic does to a computation: `none`. `debug_assert!` panics in a checked build
-- (`debug_assertions`) and is compiled out in release; every operation takes the build as the
-- argument `checked`.
use serialize_rs.Base.{Bool, true, false, Option, none, some, if◌then◌else◌}

infixl 5 ◌>>=◌ ◌>>◌
abbrev pub ◌>>=◌ {ℓ κ} : {A : Type ℓ} {B : Type κ} → Option A → (A → Option B) → Option B
none >>= f = none
some a >>= f = f a

abbrev pub ◌>>◌ {ℓ} : {B : Type ℓ} → Option (Unit {0}) → Option B → Option B
m >> k = m >>= λ _. k

abbrev pub debug_assert : Bool → Bool → Option (Unit {0})
debug_assert checked true = some tt
debug_assert checked false = if checked then none else some tt
