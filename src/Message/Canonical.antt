-- ===== src/Message/Canonical.antt =====
-- The bytes of a packet that a reader accepts are those that a writer sends for its values.
use serialize_rs.Base.{
  ℕ, ◌+◌, ◌*◌, ◌/◌, ◌%◌, ◌^◌, ◌≤◌, ◌<◌, ◌≡◌, refl, ap, sym, ◌∙◌, arith, Bool, none, some, List,
  length, take, leb, ◌==◌, inl, inr, Bool-cases, length-take, pow_pos,
}
use mathlib.Core.Path.{subst}
use native.Mathlib.Nat.{mod-eq_of_lt, mod-lt, div-one}
use serialize_rs.Bytes.{IsBytes, IsBytes-take, le_value, le_value-take, le_value-injective}
use serialize_rs.Outcome.{ok}
use serialize_rs.BitReader.{BitReader}
use serialize_rs.BitReader.Valid.{IsValid, packet, field}
use serialize_rs.ReadStream
use serialize_rs.ReadStream.{ReadStream, serialize_end}
use serialize_rs.ReadStream.Start.{Starts, new-Starts}
use serialize_rs.ReadStream.End.{to_end, serialize_end_lem}
use serialize_rs.ReadStream.Spells.{
  Spells, Spells-then, Spells-valid, Spells-fresh, Spells-position, Yields, Yields-attempt,
}
use serialize_rs.Message.{Kind, Values}
use serialize_rs.Message.Code.{AreDeclared, AreShaped, message_bits, message_code}
use serialize_rs.Message.Hostile.{AreTyped}
use serialize_rs.Message.Consumed.{Fields, serialize_message-Yields}
use serialize_rs.Message.Packet.{send, receive, Delivers, send-Delivers}

-- The first `bytes` bytes of `buffer` are the encoding of the values.
abbrev pub Encodes : (ks : List Kind) → List ℕ → ℕ → Values ks → ReadStream → Type 0
Encodes ks buffer bytes vs _ =
    AreDeclared ks vs
    × (bytes ≡ (message_bits ks vs 0 + 7) / 8)
    × (le_value buffer % 2 ^ (8 * bytes) ≡ message_code ks vs 0)

-- What an accepted end has consumed.
end-Yields :
    (checked : Bool) (s : ReadStream)
    → IsValid s.reader
    → s.failed ≡ none
    → Yields (λ _ t. (to_end s < 8) × Spells s 0 (to_end s) t) (serialize_end checked s)
end-Yields checked s valid fresh =
    rw (serialize_end_lem checked valid fresh) (elim (Bool-cases (leb 8 (to_end s))) [
      | inl long ↦ rw long tt
      | inr short ↦ elim (Bool-cases (field s.reader (to_end s) == 0)) [
        | inr ones ↦ rw (short, ones) tt
        | inl zeros ↦
            rw (short, zeros)
              (
                ground (arith, short),
                record {
                  seen = record {
                    fresh = fresh;
                    valid = valid;
                    room = omega (arith, valid.within);
                    spelled = ground (arith, zeros);
                  };
                  lands = refl;
                },
              )
      ]
    ])

whole_packet :
    (r : BitReader) (n : ℕ)
    → r.bits_read ≡ 0
    → r.num_bits ≡ n
    → field r n ≡ le_value r.buffer % 2 ^ n
unfolding field packet
whole_packet r n start size =
    ap (λ (t : ℕ). packet r / 2 ^ t % 2 ^ n) start
    ∙ ap (λ (t : ℕ). t % 2 ^ n) (div-one (packet r))
    ∙ ap (λ (t : ℕ). le_value r.buffer % 2 ^ t % 2 ^ n) size
    ∙ mod-eq_of_lt (mod-lt (le_value r.buffer) (pow_pos n))

module _ (checked : Bool) (ks : List Kind) (dest : Values ks) (buffer : List ℕ) (bytes : ℕ)
    (typed : AreTyped ks) (shaped : AreShaped ks dest) (are_bytes : IsBytes buffer)
    (in_buffer : bytes ≤ length buffer) (fits : 8 * length buffer < 2 ^ 64) where
  Fields-end :
      (vs : Values ks) (s t u : ReadStream)
      → s.reader.bits_read ≡ 0
      → s.reader.num_bits ≡ 8 * bytes
      → s.reader.buffer ≡ buffer
      → Fields ks s vs t
      → to_end t < 8
      → Spells t 0 (to_end t) u
      → Encodes ks buffer bytes vs u
  Fields-end vs s t u start size same (declared, read) near rest =
      let all = Spells-then read rest in
      let bits = ap (message_bits ks vs) start in
      let whole : message_bits ks vs s.reader.bits_read + to_end t ≡ 8 * bytes = omega (
        arith,
        start,
        size,
        Spells-position read,
        read.seen.room,
        ap (λ z. z.reader.num_bits) read.lands,
      ) in
      (
        declared,
        omega (arith, bits, whole, near),
        ap (λ (xs : List ℕ). le_value xs % 2 ^ (8 * bytes)) (sym same)
            ∙ sym (whole_packet s.reader (8 * bytes) start size)
            ∙ ap (field s.reader) (sym whole)
            ∙ all.seen.spelled
            ∙ omega (arith, ap (message_code ks vs) start),
      )

  receive-Yields : Yields (Encodes ks buffer bytes) (receive checked ks dest buffer bytes)
  unfolding receive
  receive-Yields =
      let b : Starts buffer bytes (ReadStream.new checked buffer bytes) =
        new-Starts checked buffer bytes are_bytes in_buffer (omega arith) in
      let s : ReadStream = record { reader = b.reader; failed = none } in
      rw b.returns (
        Yields-attempt (Fields ks s) (Encodes ks buffer bytes) dest _ _
          (serialize_message-Yields checked ks dest s typed shaped b.valid refl)
          λ vs t fields.
            Yields-attempt (λ _ u. (to_end t < 8) × Spells t 0 (to_end t) u)
              (Encodes ks buffer bytes) vs _ _
              (end-Yields checked t (Spells-valid fields.1) (Spells-fresh fields.1))
              λ _ u (near, rest). Fields-end vs s t u b.start b.size b.same_buffer fields near rest)

  -- One encoding for each packet. If a receiver, in either build, accepts the first bytes of a
  -- buffer (under 2^64 bits) as the values of a list of fields, the destination's arrays of
  -- bytes being of their length, then sending those values, in either build, with a buffer of
  -- whole words of 8 bytes (under 2^64 bits) with room for as many bytes, does not panic or
  -- fail, sends as many bytes, and they are the bytes that were received. So no packet that a
  -- reader accepts, from whatever source, differs from the one that a writer produces for what
  -- was read.
  pub send-receive :
      (vs : Values ks) (s : ReadStream) (write_checked : Bool) (out : List ℕ)
      → receive checked ks dest buffer bytes ≡ ok vs s
      → length out % 8 ≡ 0
      → 8 * length out < 2 ^ 64
      → IsBytes out
      → bytes ≤ length out
      → (sent : List ℕ) × (send write_checked ks vs out ≡ some (sent, bytes))
        × (take bytes sent ≡ take bytes buffer)
  send-receive vs s write_checked out received whole out_fits out_bytes room =
      let (declared, count, spelled) : Encodes ks buffer bytes vs s =
        subst (Yields (Encodes ks buffer bytes)) received receive-Yields in
      let d : Delivers (message_code ks vs 0) (message_bits ks vs 0)
          (send write_checked ks vs out) =
        send-Delivers ks vs declared write_checked out whole out_fits out_bytes
          (omega (arith, count)) in
      let same : d.bytes ≡ bytes = omega (arith, count, d.count) in
      (
        d.buffer,
        d.returns ∙ ap (λ (n : ℕ). some (d.buffer, n)) same,
        le_value-injective (take bytes d.buffer) (take bytes buffer)
            (IsBytes-take bytes d.buffer d.are_bytes) (IsBytes-take bytes buffer are_bytes)
            (omega (arith, length-take bytes d.buffer, length-take bytes buffer, d.in_buffer, same))
            (le_value-take bytes d.buffer d.are_bytes
              ∙ ap (λ (n : ℕ). le_value d.buffer % 2 ^ (8 * n)) (sym same)
              ∙ d.spelled
              ∙ sym spelled
              ∙ sym (le_value-take bytes buffer are_bytes)),
      )
