-- ===== src/Rfc8949.antt =====
-- The package rfc8949: the encoder and the decoder.
pub mod Options
pub mod Order
pub mod Serial
pub mod Encode
pub mod Estimate
pub mod State
pub mod Strings
pub mod Scalars
pub mod Arrays
pub mod Equal
pub mod Insert
pub mod Maps
pub mod Decode
pub mod Valid
pub mod RoundTrip
pub mod Total
pub mod Skip
pub mod Cursor
pub mod Homogeneous
pub mod Preorder
