-- ===== src/Cbor/Error.antt =====
-- cbor/errors.go: the sentinels that every error of the encoder and the decoder wraps,
-- and ErrTypeMismatch of rfc8949/cursor.go.
pub data Error : Type 0 where
  non_shortest indefinite_length invalid_utf8 duplicate_map_key unknown_tag : Error
  non_finite_float null_map_key trailing_bytes truncated max_nesting_depth : Error
  max_array_length max_byte_string_length invalid_mode nil_value reserved_ai : Error
  memory_budget_exceeded type_mismatch : Error
