-- ===== src/Lib.antt =====
-- A model of go-brrr, a Brotli encoder and decoder, and proofs about it. The encoder
-- (internal/encoder) turns matches into commands and distance codes and writes them with a bit
-- writer; the decoder (decode.go and bitreader.go) reads bits, resumably, and undoes each step;
-- internal/core holds the tables that both use.
--
-- The files, and the code that they model:
--   Prelude, with Tests, Lists, Int, BitOps, BitStream, Tables: Boolean tests, slices as lists,
--     Go's `int` conversions, bit operations as arithmetic, streams of bits, checks by evaluation.
--   Commands: internal/encoder/command.go. Its children prove the length codes (Lengths), the
--     704-symbol grid (Grid), the distance prefixes (DistanceSplit, Distances) and newCommand with
--     the accessors (Packing).
--   DistanceParams: the distance alphabet of internal/encoder/distance_params.go.
--   CmdLut, with Element and Rows0 to Rows3: the decoder's command table, internal/core/cmdlut.go.
--   Distance: computeDistanceCode of internal/encoder/encoder.go and the cache update of
--     internal/encoder/hash5.go; readDistance, calculateDistanceLut, takeDistanceFromRingBuffer and
--     what processCommands does with a distance, in decode.go. Lut gives the table's entries, Symbol
--     reads the encoder's symbols, Code says what a code stands for; Sync, Steps and Step relate
--     cache and ring, Stream runs whole lists.
--   BitReader: bitreader.go. Unread gives the stream of bits that a reader has left, Read the
--     reads, Copy the copies of whole bytes, Padding those after clear bits.
--   BitWriter: the bitWriter of internal/encoder/bitwriter.go with writeBits of
--     internal/encoder/le_generic.go. Written gives the bits written so far, Fields rows of writes,
--     Align whole bytes.
--   Resumable: the loop over a substate that the header decoders of decode.go share. Stream is the
--     same loop over a list of bits, Resume compares calls with cut input, Alike runs from states
--     that no case tells apart, ReadFields reads what was written.
--   Headers: encodeWindowBits, writeMetaBlockHeader, encodeMlen and storeVarLenUint8 of
--     internal/encoder; decodeWindowBits, decodeVarLenUint8 and decodeMetaBlockLength of decode.go.
--     VarLen, Window, Mlen, Nibbles, MetaBlock (stopping), Resuming, MetaBlockTrip (reading
--     back) and Uncompressed (with bytes after the header) hold the proofs.
--   Context, with Simple, Classes and Ids: internal/core/context.go.
--   Blocks: the block type codes of internal/encoder/block_encoder.go, getBlockLengthPrefixCode of
--     internal/encoder/constants.go, and the type ring and block lengths of decode.go, with the
--     proofs in Types and Lengths.
--   MoveToFront: moveToFrontTransform of internal/encoder/bitwriter.go and
--     inverseMoveToFrontTransform of decode.go, with the proof in Trip.
--   CodeLengths: the code lengths of a Huffman tree in the stream. Encode is encodeHuffmanTree of
--     internal/encoder/huffman_encode.go, Decode the code length loop of decode.go. RunEnd, Assign,
--     Reads, Repeats, Runs, Tree, Loop, Symbols, Linked and Trip prove that the one undoes the
--     other, Bounds that no stream leads outside the arrays.
--   Huffman: the canonical codes. Codes is convertBitDepthsToSymbols of
--     internal/encoder/huffman_encode.go, Table is BuildHuffmanTable of internal/core/huffman.go and
--     decodeSymbol of decode.go. Reverse, Counts, Kraft and Encoded prove what the encoder's codes
--     are; Fill and Root what the root table holds, Grow, Second, Place and Levels what the tables
--     behind it hold; Build, Rows and Trip that the table decodes the codes, ReadSymbol and SafeRead
--     that safeReadSymbol of decode.go does so on a stream that may be cut.
--   HuffmanTree: setDepth of internal/encoder/huffman_encode.go, with the proof in Leaves.
--   DecoderRing: the decoder's ring buffer, writeRingBuffer, ensureRingBuffer, pendingOutput and
--     flushOutput of decode.go. Slices and IsRing (what the ring holds), Turn (wrap-around and
--     flushes), Growth (larger arrays), Delivery (any order of the operations).
--   OutputChunks: chunkWriter of output_chunks.go. Copies gives the bytes of the chunks, Filled what a
--     write leaves in them, Taken the round trip.
--   ContextMap: the runs of zeros of a context map, runLengthCodeZeros and encodeContextMapBuf of
--     internal/encoder/bitwriter.go against decodeContextMap of decode.go. Trip proves that the
--     loop undoes the runs, Whole that the map comes back, Filled what holds of any stream.
--   Transforms: internal/core/transforms.go, its tables (Table) and TransformDictionaryWord (Word),
--     with what it leaves in a buffer (Written) and the 121 transforms (Bounds).
--   Tests: concrete runs, and the theorems at concrete inputs.
--
-- A Go `uint` or `uint64` is a natural number, with its wrap-around written out where the code
-- can reach it; an `int8` or `int` that may be negative is an integer of Prelude.Int. A slice is a
-- list. A write beyond a buffer, where Go panics, is none. Errors are values of the models' result
-- types.
--
-- Loops that are not structural run on fuel. bits.Len has 64 rounds, one for each bit. The loop
-- that pulls bytes has 4, and 24 bits need at most 3. decodeVarLenUint8 has 4 rounds and needs at
-- most 3, decodeMetaBlockLength has 16 and needs at most 13: every round lowers a rank. The scan
-- for a block length's code has 26, one for each code. A loop over the runs of a list, or over the
-- digits of a repetition, has a round for each entry, or one more than the repetition.
-- The loop over the regular codes of the distance table has a round for each code of the alphabet.
-- The loop that doubles the decoder's ring has 2, and needs at most 2, since the slack behind the
-- ring is smaller than the ring. The loop of write has a round for each byte.
-- replicateValue has a round for each slot of the table, the copies of the root table 8, one for
-- each bit of its index. setDepth takes a round for each node.
--
-- Not modelled: match finding, block splitting and the cost models, which choose among valid
-- outputs; the simple Huffman codes, the queues that build a tree and the writers of trees; the
-- dictionary's words; the decoder's main loop beyond its distance steps and the delivery from its
-- ring buffer; the readers and writers of the package's API beyond the chunks of their output; the
-- variants of the same functions in assembly, with unsafe loads or for big-endian targets.
pub mod Prelude
pub mod Commands
pub mod DistanceParams
pub mod CmdLut
pub mod CodeLengths
pub mod Huffman
pub mod HuffmanTree
pub mod OutputChunks
pub mod DecoderRing
pub mod Distance
pub mod BitReader
pub mod BitWriter
pub mod Resumable
pub mod Headers
pub mod Context
pub mod Blocks
pub mod MoveToFront
pub mod Transforms
pub mod ContextMap
pub mod Tests
