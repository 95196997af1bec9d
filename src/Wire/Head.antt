-- ===== src/Wire/Head.antt =====
-- wire/head.go: the initial byte with its argument.
pub mod RoundTrip
pub mod Canonical
use corecbor.Prelude.{
  ℕ, ◌%◌, Bool, true, List, [], ◌∷◌, ◌++◌, ltb, leb, ◌==◌, if◌then◌else◌, bit_and, bit_or, put_u16,
  put_u32, put_u64, be16, be32, be64,
}

-- The major types, in the high three bits.
abbrev pub major_uint : ℕ
major_uint = 0x00

abbrev pub major_neg_int : ℕ
major_neg_int = 0x20

abbrev pub major_bytes : ℕ
major_bytes = 0x40

abbrev pub major_text : ℕ
major_text = 0x60

abbrev pub major_array : ℕ
major_array = 0x80

abbrev pub major_map : ℕ
major_map = 0xa0

abbrev pub major_tag : ℕ
major_tag = 0xc0

abbrev pub major_other : ℕ
major_other = 0xe0

-- Additional information with a meaning of its own.
abbrev pub ai_1byte : ℕ
ai_1byte = 24

abbrev pub ai_2bytes : ℕ
ai_2bytes = 25

abbrev pub ai_4bytes : ℕ
ai_4bytes = 26

abbrev pub ai_8bytes : ℕ
ai_8bytes = 27

abbrev pub ai_indefinite : ℕ
ai_indefinite = 31

-- Major type 7.
abbrev pub simple_false : ℕ
simple_false = 0xf4

abbrev pub simple_true : ℕ
simple_true = 0xf5

abbrev pub simple_null : ℕ
simple_null = 0xf6

abbrev pub simple_undefined : ℕ
simple_undefined = 0xf7

abbrev pub simple_one_byte : ℕ
simple_one_byte = 0xf8

abbrev pub float16_marker : ℕ
float16_marker = 0xf9

abbrev pub float32_marker : ℕ
float32_marker = 0xfa

abbrev pub float64_marker : ℕ
float64_marker = 0xfb

abbrev pub break_code : ℕ
break_code = 0xff

-- What AppendHead adds behind `dst`; the narrowing conversions are the `%` inside `put_u16` and so on.
unfoldable pub head_bytes : ℕ → ℕ → List ℕ
head_bytes major arg =
    if ltb arg 24
    then bit_or major (arg % 256) ∷ []
    else if leb arg 0xff
    then bit_or major ai_1byte ∷ (arg % 256) ∷ []
    else if leb arg 0xffff
    then bit_or major ai_2bytes ∷ put_u16 arg
    else if leb arg 0xffff_ffff
    then bit_or major ai_4bytes ∷ put_u32 arg
    else bit_or major ai_8bytes ∷ put_u64 arg

unfoldable pub append_head : List ℕ → ℕ → ℕ → List ℕ
unfolding head_bytes
append_head dst major arg = dst ++ head_bytes major arg

-- `n` is 0 where the source is too short for the head.
pub record HeadResult : Type 0 where
  pub major : ℕ
  pub ai : ℕ
  pub arg : ℕ
  pub n : ℕ

abbrev pub no_head : HeadResult
no_head = record { major = 0; ai = 0; arg = 0; n = 0 }

-- The argument behind the initial byte; `rest` is `src[1:]`.
unfoldable pub arg_1 : ℕ → ℕ → List ℕ → HeadResult
arg_1 major ai (a ∷ _) = record { major = major; ai = ai; arg = a; n = 2 }
arg_1 major ai _ = no_head

unfoldable pub arg_2 : ℕ → ℕ → List ℕ → HeadResult
arg_2 major ai (a ∷ b ∷ _) = record { major = major; ai = ai; arg = be16 a b; n = 3 }
arg_2 major ai _ = no_head

unfoldable pub arg_4 : ℕ → ℕ → List ℕ → HeadResult
arg_4 major ai (a ∷ b ∷ c ∷ d ∷ _) = record { major = major; ai = ai; arg = be32 a b c d; n = 5 }
arg_4 major ai _ = no_head

unfoldable pub arg_8 : ℕ → ℕ → List ℕ → HeadResult
arg_8 major ai (a ∷ b ∷ c ∷ d ∷ e ∷ f ∷ g ∷ h ∷ _) = record {
  major = major;
  ai = ai;
  arg = be64 a b c d e f g h;
  n = 9;
}
arg_8 major ai _ = no_head

unfoldable pub parse_arg : ℕ → ℕ → List ℕ → HeadResult
parse_arg major ai rest =
    if ltb ai 24
    then record { major = major; ai = ai; arg = ai; n = 1 }
    else if ai == ai_1byte
    then arg_1 major ai rest
    else if ai == ai_2bytes
    then arg_2 major ai rest
    else if ai == ai_4bytes
    then arg_4 major ai rest
    else if ai == ai_8bytes
    then arg_8 major ai rest
    else record { major = major; ai = ai; arg = 0; n = 1 }

unfoldable pub parse_head : List ℕ → HeadResult
parse_head [] = no_head
parse_head (ib ∷ rest) = parse_arg (bit_and ib 0xe0) (bit_and ib 0x1f) rest

unfoldable pub is_shortest : HeadResult → Bool
is_shortest h =
    if h.ai == ai_1byte
    then leb 24 h.arg
    else if h.ai == ai_2bytes
    then ltb 0xff h.arg
    else if h.ai == ai_4bytes
    then ltb 0xffff h.arg
    else if h.ai == ai_8bytes
    then ltb 0xffff_ffff h.arg
    else true
