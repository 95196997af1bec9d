-- ===== src/Cbor.antt =====
-- The package cbor: values and errors; and the test of the standard library that decides which
-- texts are valid.
pub mod Value
pub mod Error
pub mod Utf8
