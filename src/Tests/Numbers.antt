-- ===== src/Tests/Numbers.antt =====
-- Runs of the number codecs of src/lib.rs.
use serialize_rs.Base.{◌^◌, ◌<◌, ◌≡◌, arith}
use serialize_rs.Base.Int.{negsuc, IsSigned}
use serialize_rs.ZigZag.{signed_to_unsigned, unsigned_to_signed, zig_zag_lem}

-- -3 and 5.
zig_zag_lem_example :
    (signed_to_unsigned (negsuc 2) ≡ 5)
    × (signed_to_unsigned (negsuc 2) < 2 ^ 32)
    × (unsigned_to_signed (signed_to_unsigned (negsuc 2)) ≡ negsuc 2)
    × IsSigned 32 (unsigned_to_signed 5)
    × (signed_to_unsigned (unsigned_to_signed 5) ≡ 5)
zig_zag_lem_example = zig_zag_lem (negsuc 2) 5 (omega arith, omega arith) (omega arith)
