-- ===== src/Rfc8949/Total.antt =====
-- How a run of the decoder ends, and what it takes of the source and of the budget.
pub mod Ensures
pub mod Strings
pub mod Arrays
pub mod Maps
pub mod Whole
