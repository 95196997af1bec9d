-- ===== src/Cose.antt =====
-- The package cose.
pub mod KeyWrap
