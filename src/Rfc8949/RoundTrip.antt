-- ===== src/Rfc8949/RoundTrip.antt =====
-- What the encoding of a value decodes to.
pub mod Heads
pub mod Leaves
pub mod Containers
pub mod Starts
pub mod Values
pub mod Whole
