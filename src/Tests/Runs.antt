-- ===== src/Tests/Runs.antt =====
-- Runs of operations on a concrete stream.
use serialize_rs.Base.{◌^◌, ◌<◌, ◌≡◌, refl, arith, true, some}
use serialize_rs.Error.{past_end, value_out_of_range}
use serialize_rs.ReadStream.{ReadStream}
use serialize_rs.ReadStream.Obligations.{Follows, latch-Obeys}
use serialize_rs.ReadStream.Basic.{serialize_bits-Obeys}
use serialize_rs.ReadStream.Runs.{
  Run, next, done, bits_step, fail_step, latch_fresh, Obeys-frozen, Run-Follows, Run-failed,
}
use serialize_rs.Tests.{read_stream, reader-IsValid}

abbrev failed_stream : ReadStream
failed_stream = record read_stream { failed = some past_end }

later : Run true failed_stream failed_stream
later =
    next
      (bits_step 0 3 (omega arith) (
        Obeys-frozen (λ n _. n < 2 ^ 3) 0 failed_stream past_end _ refl
          (serialize_bits-Obeys true 0 3 failed_stream reader-IsValid (omega arith))))
      (next
        (fail_step value_out_of_range (
          Obeys-frozen (λ _ _. ⊥) tt failed_stream past_end _ refl
            (latch-Obeys (λ _ _. ⊥) value_out_of_range failed_stream reader-IsValid)))
        done)

whole : Run true read_stream failed_stream
whole = next (fail_step past_end (latch_fresh past_end read_stream refl)) later

Run-Follows_example : Follows read_stream failed_stream
Run-Follows_example = Run-Follows true reader-IsValid whole

Run-failed_example : failed_stream ≡ failed_stream
Run-failed_example = Run-failed true past_end reader-IsValid refl later
