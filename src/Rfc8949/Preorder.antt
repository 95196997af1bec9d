-- ===== src/Rfc8949/Preorder.antt =====
-- rfc8949/preorder.go: the order of a map's keys, computed once for maps that share them.
pub mod Equivalence
use Prim.Native.Nat.{Ordering}
use corecbor.Prelude.{ℕ, zero, suc, List, [], ◌∷◌, ◌++◌, Option, none, some, length, get_elem?}
use corecbor.Cbor.Value.{Value, MapEntry}
use corecbor.Cbor.Error.{Error}
use corecbor.Wire.Head.{append_head, major_map}
use corecbor.Rfc8949.Options.{SortMode, EncodeOpts}
use corecbor.Rfc8949.Order.{compare_order, sort}
use corecbor.Rfc8949.Encode.{Encoded, ok, err, encode}

-- MapKeyOrder, and the entries that are sorted to make it: an encoded key with its index.
pub record KeyIndex : Type 0 where
  pub encoded : List ℕ
  pub index : ℕ

pub data KeyOrder : Type 0 where
  order : List KeyIndex → KeyOrder
  bad_key : Error → KeyOrder

abbrev pub add_key : Encoded → ℕ → KeyOrder → KeyOrder
add_key (err e _) i more = bad_key e
add_key (ok k) i (order es) = order (record { encoded = k; index = i } ∷ es)
add_key (ok k) i (bad_key e) = bad_key e

unfoldable pub encode_each : EncodeOpts → ℕ → List Value → KeyOrder
unfolding encode
encode_each opts i [] = order []
encode_each opts i (k ∷ ks) = add_key (encode opts [] k) i (encode_each opts (suc i) ks)

unfoldable pub compare_indices : SortMode → KeyIndex → KeyIndex → Ordering
unfolding compare_order
compare_indices mode a b = compare_order mode a.encoded b.encoded

abbrev pub sort_order : SortMode → KeyOrder → KeyOrder
sort_order mode (bad_key e) = bad_key e
sort_order mode (order es) = order (sort (compare_indices mode) es)

unfoldable pub precompute_map_order : List Value → SortMode → EncodeOpts → KeyOrder
unfolding encode_each compare_indices sort
precompute_map_order keys mode opts = sort_order mode (encode_each opts 0 keys)

-- An index outside the map is a panic.
pub data Written : Type 0 where
  written : Encoded → Written
  panics : Written

abbrev pub then_write : Encoded → (List ℕ → Written) → Written
then_write (ok d) f = f d
then_write (err e d) f = written (err e d)

unfoldable pub write_ordered : EncodeOpts → List MapEntry → List ℕ → List KeyIndex → Written
unfolding encode
write_ordered opts m dst [] = written (ok dst)
write_ordered opts m dst (k ∷ ks) = elim (get_elem? m k.index) [
  | none ↦ panics
  | some e ↦ then_write (encode opts (dst ++ k.encoded) e.val) λ d. write_ordered opts m d ks
]

unfoldable pub encode_map_preordered : List ℕ → List MapEntry → List KeyIndex → EncodeOpts → Written
unfolding append_head write_ordered
encode_map_preordered dst m ks opts = write_ordered opts m (append_head dst major_map (length m)) ks
