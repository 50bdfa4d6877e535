-- ===== src/Huffman.antt =====
-- The canonical Huffman codes: convertBitDepthsToSymbols of internal/encoder/huffman_encode.go gives
-- the encoder the bits of each symbol, BuildHuffmanTable of internal/core/huffman.go the decoder its
-- two-level table, and decodeSymbol of decode.go reads it.
pub mod Reverse
pub mod Codes
pub mod Counts
pub mod Kraft
pub mod Table
pub mod Fill
pub mod Root
pub mod Grow
pub mod Second
pub mod Place
pub mod Levels
pub mod Build
pub mod Encoded
pub mod Rows
pub mod ReadSymbol
pub mod SafeRead
pub mod Trip
