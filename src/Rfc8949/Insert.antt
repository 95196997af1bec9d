-- ===== src/Rfc8949/Insert.antt =====
-- rfc8949/decode.go: mapInsert, with the table of key hashes that decodeMap keeps for a map of more
-- than 16 entries.
use corecbor.Prelude.{
  ℕ, zero, suc, ◌*◌, ◌%◌, ◌^◌, Bool, false, List, [], ◌∷◌, ◌++◌, Option, none, some, ◌==◌,
  if◌then◌else◌, length, bit_xor, get_elem?,
}
use corecbor.Cbor.Value.{Value, MapEntry}
use corecbor.Rfc8949.Options.{DecodeOpts}
use corecbor.Rfc8949.Equal.{values_equal}

-- fnv1a
unfoldable pub fnv1a_from : ℕ → List ℕ → ℕ
fnv1a_from h [] = h
fnv1a_from h (c ∷ cs) = fnv1a_from (bit_xor h c * 1099511628211 % 2 ^ 64) cs

unfoldable pub fnv1a : List ℕ → ℕ
unfolding fnv1a_from
fnv1a bs = fnv1a_from 14695981039346656037 bs

-- keyDedup: for each hash the indices of the entries whose encoded key has it.
abbrev pub Seen : Type 0
Seen = ℕ → List ℕ

abbrev pub Dedup : Type 0
Dedup = Option Seen

unfoldable pub note : Seen → ℕ → ℕ → Seen
note seen h i j = if j == h then seen h ++ (i ∷ []) else seen j

-- The first entry whose key is equal: the loop over the entries.
unfoldable pub find_linear : ℕ → List MapEntry → Value → Option ℕ
find_linear i [] key = none
find_linear i (e ∷ es) key =
    let later = find_linear (suc i) es key in if values_equal e.key key then some i else later

abbrev pub key_matches : Option MapEntry → Value → Bool
key_matches none key = false
key_matches (some e) key = values_equal e.key key

-- The first of the indices whose key is equal: the loop over `dedup.seen[h]`.
unfoldable pub find_seen : List MapEntry → List ℕ → Value → Option ℕ
find_seen m [] key = none
find_seen m (i ∷ is) key =
    let later = find_seen m is key in if key_matches (get_elem? m i) key then some i else later

unfoldable pub find_key : List MapEntry → Value → List ℕ → Dedup → Option ℕ
unfolding find_linear find_seen fnv1a
find_key m key encoded none = find_linear 0 m key
find_key m key encoded (some seen) = find_seen m (seen (fnv1a encoded)) key

unfoldable pub remember : List MapEntry → List ℕ → Dedup → Dedup
unfolding note fnv1a
remember m encoded none = none
remember m encoded (some seen) = some (note seen (fnv1a encoded) (length m))

-- `m[i].Value = val`
unfoldable pub set_val : List MapEntry → ℕ → Value → List MapEntry
set_val [] i val = []
set_val (e ∷ es) zero val = record e { val = val } ∷ es
set_val (e ∷ es) (suc i) val = e ∷ set_val es i val

-- `none` is ErrDuplicateMapKey.
unfoldable pub map_insert :
    DecodeOpts → List MapEntry → Value → Value → List ℕ → Dedup → Option (List MapEntry × Dedup)
unfolding find_key remember set_val
map_insert opts m key val encoded dedup = elim (find_key m key encoded dedup) [
  | some i ↦ if opts.reject_duplicate_map_keys then none else some (set_val m i val, dedup)
  | none ↦ some (m ++ (record { key = key; val = val } ∷ []), remember m encoded dedup)
]
