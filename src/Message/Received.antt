-- ===== src/Message/Received.antt =====
-- A packet received from any bytes at all: the new stream, the fields, the end.
use serialize_rs.Base.{
  ℕ, ◌*◌, ◌^◌, ◌<◌, ◌≡◌, refl, ◌∙◌, arith, Bool, some, none, List, [], ◌∷◌, length, leb, ◌==◌, inl,
  inr, Bool-cases,
}
use native.Mathlib.Decide.{dec_le}
use serialize_rs.Bytes.{IsBytes}
use serialize_rs.Error.{Error, value_out_of_range}
use serialize_rs.Outcome.{Outcome, ok, err, panic, attempt, attempt_into}
use serialize_rs.BitReader.Valid.{IsValid, field}
use serialize_rs.ReadStream.{ReadStream, new, serialize_end}
use serialize_rs.ReadStream.Strings.{read_strings}
use serialize_rs.ReadStream.Obligations.{Obeys}
use serialize_rs.ReadStream.Guards.{Guards}
use serialize_rs.ReadStream.Start.{Starts, new-Starts, new_past_end}
use serialize_rs.ReadStream.End.{to_end, serialize_end_lem, end_failed}
use serialize_rs.Message.{Kind, Values, serialize_message}
use serialize_rs.Message.Packet.{receive}
use serialize_rs.Message.Code.{AreShaped}
use serialize_rs.Message.Hostile.{
  AreTyped, InRange, AreInRange, serialize_field-Obeys, serialize_message-Guards,
}

-- What a receiver may rely on.
abbrev pub Safe : (ks : List Kind) → ℕ → Outcome (Values ks) ReadStream → Type 0
Safe ks bytes (ok vs s) = AreInRange ks vs × (s.failed ≡ none) × (s.reader.bits_read ≡ 8 * bytes)
Safe ks bytes (err e vs s) = s.failed ≡ some e
Safe ks bytes panic = ⊥

module _ (checked : Bool) where
  end-Safe :
      (ks : List Kind) (vs : Values ks) (bytes : ℕ) (s : ReadStream)
      → AreInRange ks vs
      → IsValid s.reader
      → s.failed ≡ none
      → s.reader.num_bits ≡ 8 * bytes
      → Safe ks bytes (attempt vs (serialize_end checked s) (λ _ s1. ok vs s1))
  end-Safe ks vs bytes s in_range valid fresh size =
      rw (serialize_end_lem checked valid fresh) (elim (Bool-cases (leb 8 (to_end s))) [
        | inl long ↦ rw long refl
        | inr short ↦ elim (Bool-cases (field s.reader (to_end s) == 0)) [
          | inl zeros ↦ rw (short, zeros) (in_range, fresh, omega (arith, valid.within, size))
          | inr ones ↦ rw (short, ones) refl
        ]
      ])

  fields-Safe :
      (ks : List Kind) (dest : Values ks) (bytes : ℕ) (s : ReadStream)
      (o : Outcome (Values ks) ReadStream)
      → s.reader.num_bits ≡ 8 * bytes
      → Guards (AreInRange ks) s o
      → Safe ks bytes
          (attempt dest o λ vs s1. attempt vs (serialize_end checked s1) (λ _ s2. ok vs s2))
  fields-Safe ks dest bytes s (ok vs s1) size h =
      end-Safe ks vs bytes s1 h.value h.follows.valid h.is_fresh (h.follows.same_size ∙ size)
  fields-Safe ks dest bytes s (err e vs s1) size h = h.latched
  fields-Safe ks dest bytes s panic size h = h

  -- A stream that has failed refuses the first field, and the end where there is none.
  refused-Safe :
      {A : Type 0} (P : A → ReadStream → Type 0) (ks : List Kind) (bytes : ℕ) (part : A)
      (s : ReadStream) (first : Error) (dest : Values ks) (into : A → Values ks)
      (o : Outcome A ReadStream) (next : A → ReadStream → Outcome (Values ks) ReadStream)
      (last : Values ks → ReadStream → Outcome (Values ks) ReadStream)
      → s.failed ≡ some first
      → Obeys P part s o
      → Safe ks bytes (attempt dest (attempt_into into o next) last)
  refused-Safe P ks bytes part s first dest into (ok a t) next last failed h =
      absurd (cc (failed, h.was_fresh))
  refused-Safe P ks bytes part s first dest into (err e a t) next last failed h = h.latched
  refused-Safe P ks bytes part s first dest into panic next last failed h = h

  failed-Safe :
      (ks : List Kind) (dest : Values ks) (bytes : ℕ) (s : ReadStream) (first : Error)
      → AreTyped ks
      → AreShaped ks dest
      → IsValid s.reader
      → s.failed ≡ some first
      → Safe ks bytes (
          attempt dest
            (serialize_message (read_strings checked) ks dest s)
            λ vs s1. attempt vs (serialize_end checked s1) (λ _ s2. ok vs s2))
  unfolding serialize_message
  failed-Safe [] dest bytes s first typed shaped valid failed =
      rw (end_failed checked s first failed) failed
  failed-Safe (k ∷ ks) (v, vs) bytes s first (typed, _) (shaped, _) valid failed =
      refused-Safe (λ v _. InRange k v) (k ∷ ks) bytes v s first (v, vs) (λ v'. (v', vs)) _ _ _
        failed (serialize_field-Obeys checked k v s typed shaped valid)

  -- Whatever bytes came and however many were claimed, and whatever ranges, widths, sizes, Q
  -- formats (of storage of up to 128 bits) and previous values the fields declare, right or
  -- wrong, a receiver (a new `ReadStream`, the fields, `serialize_end`) over a buffer of under
  -- 2^64 bits, with a destination whose arrays of bytes are of their length, does not panic, in
  -- either build. If it accepts, every value is in the range that its field declares, every
  -- float finite, every relative integer above its previous value, every string well-formed
  -- UTF-8 without NUL and shorter than its buffer; the stream has not failed, and exactly the
  -- claimed bytes were consumed. If it refuses, the stream has latched the error that it
  -- returns.
  pub receive-Safe :
      (ks : List Kind) (dest : Values ks) (buffer : List ℕ) (bytes : ℕ)
      → AreTyped ks
      → AreShaped ks dest
      → IsBytes buffer
      → 8 * length buffer < 2 ^ 64
      → Safe ks bytes (receive checked ks dest buffer bytes)
  unfolding receive
  receive-Safe ks dest buffer bytes typed shaped are_bytes fits =
      elim (dec_le bytes (length buffer)) [
        | yes in_buffer ↦
            let b : Starts buffer bytes (new checked buffer bytes) =
              new-Starts checked buffer bytes are_bytes in_buffer (omega arith) in
            rw b.returns (
              fields-Safe ks dest bytes _ _ b.size (
                serialize_message-Guards checked ks dest
                  (record { reader = b.reader; failed = none }) typed shaped b.valid refl))
        | no past ↦
            let (r, returns, valid, _) =
              new_past_end checked buffer bytes are_bytes (omega arith) in
            rw returns (
              failed-Safe ks dest bytes (record { reader = r; failed = some value_out_of_range })
                value_out_of_range typed shaped valid refl)
      ]
