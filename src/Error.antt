-- ===== src/Error.antt =====
-- src/lib.rs, `Error`: why a read was refused, and the reasons' names.
use Prim.Native.String.{String}
use serialize_rs.Base.{Option, none, some, List, [], ◌∷◌}

pub data Error : Type 0 where
  past_end value_out_of_range nonzero_padding trailing_data non_finite_float invalid_utf8
        embedded_nul non_canonical rejected :
      Error

abbrev pub all : List Error
all =
    past_end ∷ value_out_of_range ∷ nonzero_padding ∷ trailing_data ∷ non_finite_float
    ∷ invalid_utf8 ∷ embedded_nul ∷ non_canonical ∷ rejected ∷ []

pub name : Error → String
name past_end = "past_end"
name value_out_of_range = "value_out_of_range"
name nonzero_padding = "nonzero_padding"
name trailing_data = "trailing_data"
name non_finite_float = "non_finite_float"
name invalid_utf8 = "invalid_utf8"
name embedded_nul = "embedded_nul"
name non_canonical = "non_canonical"
name rejected = "rejected"

pub refusal_name : Option Error → String
unfolding name
refusal_name none = "none"
refusal_name (some reason) = name reason
