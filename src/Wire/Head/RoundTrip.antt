-- ===== src/Wire/Head/RoundTrip.antt =====
-- wire/head.go: ParseHead on what AppendHead writes.
use corecbor.Prelude.{
  ℕ, ◌+◌, ◌*◌, ◌/◌, ◌%◌, ◌^◌, ◌<◌, ◌≡◌, List, ◌∷◌, ◌++◌, ltb, leb, if◌then◌else◌, bit_or,
  bit_and-major, bit_and-info, bit_or-join, put_u16, put_u32, put_u64, be16, be32, be64, IsU64,
  arith, subst,
}
use corecbor.Wire.Head.{head_bytes, HeadResult, parse_head, parse_arg, arg_1, arg_2, arg_4, arg_8}

-- A major type as the code holds it, shifted into the high three bits.
abbrev pub IsMajor : ℕ → Type 0
IsMajor m = (m < 256) × (m % 32 ≡ 0)

-- The additional information of the shortest head.
abbrev pub head_info : ℕ → ℕ
head_info arg =
    if ltb arg 24
    then arg
    else if leb arg 0xff
    then 24
    else if leb arg 0xffff
    then 25
    else if leb arg 0xffff_ffff
    then 26
    else 27

-- The length of the shortest head.
abbrev pub head_width : ℕ → ℕ
head_width arg =
    if ltb arg 24
    then 1
    else if leb arg 0xff
    then 2
    else if leb arg 0xffff
    then 3
    else if leb arg 0xffff_ffff
    then 5
    else 9

abbrev pub head_of : ℕ → ℕ → HeadResult
head_of major arg = record { major = major; ai = head_info arg; arg = arg; n = head_width arg }

pub major_or : (m a : ℕ) → IsMajor m → a < 32 → bit_or m a ≡ m + a
major_or m a h ha =
    subst (λ x. bit_or x a ≡ m + a) (omega arith)
      (subst (λ x. bit_or ((m + a) / 32 * 32) x ≡ m + a) (omega arith)
        (bit_or-join (m + a) (omega arith)))

-- The initial byte is taken apart into the two parts it was joined from.
pub parse_head-join :
    (m a : ℕ) (rest : List ℕ)
    → IsMajor m
    → a < 32
    → parse_head (bit_or m a ∷ rest) ≡ parse_arg m a rest
unfolding parse_head
parse_head-join m a rest h ha =
    ground (arith, major_or m a, bit_and-major (m + a), bit_and-info (m + a))

be16-put : (v : ℕ) → v < 2 ^ 16 → be16 (v / 256 % 256) (v % 256) ≡ v
unfolding be16
be16-put v h = omega arith

pub be32-put :
    (v : ℕ) → v < 2 ^ 32 → be32 (v / 2 ^ 24 % 256) (v / 2 ^ 16 % 256) (v / 256 % 256) (v % 256) ≡ v
unfolding be32
be32-put v h = omega arith

pub be64-put :
    (v : ℕ)
    → IsU64 v
    → be64
        (v / 2 ^ 56 % 256)
        (v / 2 ^ 48 % 256)
        (v / 2 ^ 40 % 256)
        (v / 2 ^ 32 % 256)
        (v / 2 ^ 24 % 256)
        (v / 2 ^ 16 % 256)
        (v / 256 % 256)
        (v % 256)
      ≡ v
unfolding be64
be64-put v h = omega arith

-- ParseHead reads back the head that AppendHead wrote, for every 64-bit argument, whatever follows.
pub parse_head-head_bytes :
    (major arg : ℕ) (rest : List ℕ)
    → IsMajor major
    → IsU64 arg
    → parse_head (head_bytes major arg ++ rest) ≡ head_of major arg
unfolding head_bytes parse_arg arg_1 arg_2 arg_4 arg_8 put_u16 put_u32 put_u64
parse_head-head_bytes major arg rest h ha = ground (
  arith,
  parse_head-join major (arg % 256) rest,
  parse_head-join major 24 ((arg % 256) ∷ rest),
  parse_head-join major 25 (put_u16 arg ++ rest),
  parse_head-join major 26 (put_u32 arg ++ rest),
  parse_head-join major 27 (put_u64 arg ++ rest),
  be16-put arg,
  be32-put arg,
  be64-put arg,
)
