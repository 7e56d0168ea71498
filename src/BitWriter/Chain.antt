-- ===== src/BitWriter/Chain.antt =====
-- How appending operations of `BitWriter` compose.
use serialize_rs.Base.{
  ℕ, ◌+◌, ◌*◌, ◌^◌, ◌≡◌, refl, ap, sym, ◌∙◌, arith, Bool, true, Option, some, pow-add,
}
use serialize_rs.Panic.{◌>>=◌, ◌>>◌, debug_assert}
use serialize_rs.BitWriter.{BitWriter}
use serialize_rs.BitWriter.Valid.{IsValid, written, Appends}

-- Writing nothing, and writing on.
pub Appends-none : {w : BitWriter} → IsValid w → Appends w 0 0 (some w)
Appends-none {w} v = record {
  out = w;
  returns = refl;
  valid = v;
  appended = omega arith;
  counted = omega arith;
  same_size = refl;
}

module _ {w : BitWriter} {value bits : ℕ} {r : Option BitWriter} (a : Appends w value bits r) where
  pub Appends-as : {value' bits' : ℕ} → value ≡ value' → bits ≡ bits' → Appends w value' bits' r
  Appends-as p q = record {
    out = a.out;
    returns = a.returns;
    valid = a.valid;
    appended = a.appended ∙ ap (λ (t : ℕ). written w + 2 ^ w.bits_written * t) p;
    counted = a.counted ∙ ap (λ (t : ℕ). w.bits_written + t) q;
    same_size = a.same_size;
  }

  pub Appends-then :
      (more : ℕ) (n : ℕ) (k : BitWriter → Option BitWriter)
      → Appends a.out more n (k a.out)
      → Appends w (value + 2 ^ bits * more) (bits + n) (r >>= k)
  Appends-then more n k b = record {
    out = b.out;
    returns = ap (λ o. o >>= k) a.returns ∙ b.returns;
    valid = b.valid;
    appended = omega (
      arith,
      a.appended,
      b.appended,
      ap (λ (t : ℕ). t * more) (ap (λ (t : ℕ). 2 ^ t) a.counted ∙ pow-add w.bits_written bits),
    );
    counted = omega (arith, a.counted, b.counted);
    same_size = b.same_size ∙ a.same_size;
  }

  pub Appends-via : {r' : Option BitWriter} → r' ≡ r → Appends w value bits r'
  Appends-via e = record {
    out = a.out;
    returns = e ∙ a.returns;
    valid = a.valid;
    appended = a.appended;
    counted = a.counted;
    same_size = a.same_size;
  }

  -- A debug assertion behind a write that returned.
  pub Appends-assert :
      (checked : Bool) (test : BitWriter → Bool)
      → test a.out ≡ true
      → Appends w value bits (do w' ← r; debug_assert checked (test w'); some w')
  Appends-assert checked test holds = Appends-via (
      ap (λ o. o >>= λ w'. debug_assert checked (test w') >> some w') a.returns
      ∙ ap (λ b. debug_assert checked b >> some a.out) holds
      ∙ sym a.returns)
