-- ===== src/Transforms.antt =====
-- The transforms of dictionary words: internal/core/transforms.go.
pub mod Table
pub mod Word
pub mod Written
pub mod Bounds
