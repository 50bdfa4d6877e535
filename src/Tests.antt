-- ===== src/Tests.antt =====
-- Runs of the models on concrete inputs, and the theorems at such inputs.
mod Codes
mod Coding
mod Maps
mod Output
mod Prefix
mod Raw
mod Ring
mod Streams
mod Words
