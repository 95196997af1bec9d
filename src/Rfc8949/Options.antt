-- ===== src/Rfc8949/Options.antt =====
-- rfc8949/encode.go and rfc8949/decode.go: the options. The fields that only choose where a
-- result is stored (SortCache, Interner, Arena, ZeroCopy) have no counterpart.
use corecbor.Prelude.{ℕ, Bool, true, ltb, if◌then◌else◌, ◌^◌, ◌*◌}

pub data SortMode : Type 0 where
  bytewise_lex length_first : SortMode

pub data FloatMode : Type 0 where
  shortest preserve force64 : FloatMode

pub record EncodeOpts : Type 0 where
  pub deterministic : Bool
  pub sort_mode : SortMode
  pub float_mode : FloatMode
  pub allow_non_finite_floats : Bool
  pub allow_invalid_utf8 : Bool
  pub skip_utf8_validation : Bool

-- The limits are Go ints, of which those that are not positive mean the default: here 0.
pub record DecodeOpts : Type 0 where
  pub reject_indefinite_length : Bool
  pub reject_non_shortest : Bool
  pub reject_invalid_utf8 : Bool
  pub reject_duplicate_map_keys : Bool
  pub reject_unknown_tags : Bool
  pub reject_non_finite_floats : Bool
  pub reject_null_map_keys : Bool
  pub max_nesting_depth : ℕ
  pub max_array_length : ℕ
  pub max_byte_string_length : ℕ

-- StrictOpts
abbrev pub strict_opts : DecodeOpts
strict_opts = record {
  reject_indefinite_length = true;
  reject_non_shortest = true;
  reject_invalid_utf8 = true;
  reject_duplicate_map_keys = true;
  reject_unknown_tags = true;
  reject_non_finite_floats = true;
  reject_null_map_keys = true;
  max_nesting_depth = 0;
  max_array_length = 0;
  max_byte_string_length = 0;
}

unfoldable pub max_nesting : DecodeOpts → ℕ
max_nesting o = if ltb 0 o.max_nesting_depth then o.max_nesting_depth else 256

unfoldable pub max_array : DecodeOpts → ℕ
max_array o = if ltb 0 o.max_array_length then o.max_array_length else 2 ^ 20

unfoldable pub max_bytes : DecodeOpts → ℕ
max_bytes o = if ltb 0 o.max_byte_string_length then o.max_byte_string_length else 16 * 2 ^ 20
