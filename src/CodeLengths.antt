-- ===== src/CodeLengths.antt =====
-- The code lengths of a Huffman tree in the bitstream: encodeHuffmanTree of
-- internal/encoder/huffman_encode.go turns the bit depths into symbols 0 to 15, 16 and 17 with
-- extra bits, and the decoder's processSingleCodeLength and processRepeatedCodeLength of decode.go
-- read them back into lists of symbols of each length.
pub mod Encode
pub mod Decode
pub mod Assign
pub mod RunEnd
pub mod Reads
pub mod Repeats
pub mod Runs
pub mod Tree
pub mod Loop
pub mod Symbols
pub mod Linked
pub mod Trip
pub mod Bounds
