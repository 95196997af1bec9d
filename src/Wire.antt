-- ===== src/Wire.antt =====
-- The package wire: heads and half-precision floats.
pub mod Head
pub mod Float
pub mod Float16
