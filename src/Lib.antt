-- ===== src/Lib.antt =====
-- The bit packing serializer of src/bitpacker.rs, src/lib.rs, src/stream.rs, src/read_stream.rs,
-- src/write_stream.rs and src/measure_stream.rs.
--
-- A `BitWriter` packs fields of 1 to 32 bits through a 64-bit scratch word into a buffer of whole
-- words, little endian, and a `BitReader` takes them out again through 64-bit windows. Three
-- streams stand on them, behind one trait: `WriteStream` on the writer, `ReadStream` on the reader
-- with a terminal failure latch, and `MeasureStream`, which only counts. The operations that an
-- application calls (ranged and relative integers, wide fields, booleans) are written once, over the trait, so
-- that one serialize function of the application writes, measures and reads.
--
-- The parts, and where they stand:
--   Base, Bytes, Panic   numbers, machine words, two's complement, lists, byte slices as little
--                        endian numbers, panics
--   Bits                 a number as the string of its bits
--   BitWriter            `BitWriter` of src/bitpacker.rs: the state is the record BitWriter, each
--                        method a function of its name; Valid holds the invariant and `written`,
--                        the number that the bits spell; Refinement holds what it promises
--   BitReader            `BitReader` of src/bitpacker.rs, alike; Valid holds `packet` and `field`
--   BitsRequired, ZigZag, Error  `bits_required`, the zig-zag codec and `Error` of src/lib.rs
--   Outcome              the result of an operation on a stream: `Ok` or `Err` with the destination
--                        and the stream as they are left, or a panic; `attempt` is `?`
--   Text                 text as the list of its bytes: well-formed UTF-8, character boundaries, and
--                        `serialize_copy_string` of src/lib.rs
--   Stream               src/stream.rs: the trait as the record Stream, with `serialize_string` in
--                        StringStream (Strings); Raw, Ranged, Wide, Fixed and Relative hold the
--                        shared operations; Code, RelativeCode, FixedCode, StringCode, Dwords,
--                        Groups, Scale and Format the arithmetic of their wire
--   ReadStream, WriteStream, MeasureStream   the three implementations, and what the shared
--                        operations do on each; ReadStream/Spells holds what an accepted read has
--                        consumed, ReadStream/Runs the sequences of reads
--   Message              a serialize function as the example of src/lib.rs has it: a list of fields
--                        under `?`, through each of the streams, and from end to end
--   Tests                concrete runs
--
-- How the model reads the source:
--   - A panic is a value: `none` of an Option for the bit packers, `panic` of an Outcome for the
--     streams. `debug_assert!` panics where the argument `checked`, which stands for
--     `debug_assertions`, is true; slice bounds panic in both builds.
--   - Words are natural numbers below 2^w; casts, shifts, `wrapping_add`, `wrapping_sub` and the sums
--     that could pass the word are reduced to it. An overflow that a checked build would trap is
--     not told apart from one that wraps: the invariants keep the counters below 2^64. The one sum
--     left unreduced is that of `would_read_past_end`, which passes 64 bits only over a slice of
--     about 2^61 bytes.
--   - `BitWriter::data` takes the bytes that the buffer has, where the slice would panic past its end;
--     after a flush of a valid writer there are as many as it asks for.
--   - `&mut` destinations are passed in and returned, on `Ok` and on `Err`.
--   - Loops are structural on the list of bytes, widths or buckets, or on the index that they count
--     down, so there is no fuel.
--   - `leading_zeros` is modelled as the standard library documents it, at every width.
--   - The controls build of src/control.rs, which deletes checks on purpose, is not modelled:
--     `deleted` is false, as in the library as shipped.
--
-- A float is its bit pattern, so `to_bits` and `from_bits` change nothing.
--
-- A `String` is the list of its bytes. `from_utf8`, `is_char_boundary` and `split` of the standard
-- library are written out in Text, as its documentation and the Unicode standard give them.
--
-- Not modelled: compressed floats, which quantize by f32 arithmetic with its rounding; `context`, a
-- reference that no operation reads; and the text of `Debug` and `Display`.
mod Base
mod Bytes
mod Panic
mod Bits
pub mod BitWriter
pub mod BitReader
pub mod BitsRequired
pub mod ZigZag
pub mod Error
pub mod Outcome
pub mod Text
pub mod Stream
pub mod ReadStream
pub mod WriteStream
pub mod MeasureStream
pub mod Message
mod Tests
