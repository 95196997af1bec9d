-- ===== src/Cbor/Value.antt =====
-- cbor/value.go: the data model. Go's Value is a struct tagged by Kind; here each Kind is a
-- constructor that holds the fields the code reads at that Kind. Bytes and texts are lists of
-- bytes, floats are their IEEE 754 bits, and Num of a KindBool is read only by `Num != 0`.
use corecbor.Prelude.{ℕ, suc, Bool, true, false, List, [], ◌∷◌, ◌≡◌, refl, ap}

-- `Items` is []Value and `Pairs` is []MapEntry.
mutual
  pub data Value : Type 0 where
    invalid : Value
    uint neg_int : ℕ → Value
    bytes text : List ℕ → Value
    array : Items → Value
    map : Pairs → Value
    tag : ℕ → Items → Value
    bool : Bool → Value
    null undefined : Value
    float32 float64 simple : ℕ → Value

  pub data Items : Type 0 where
    nil : Items
    cons : Value → Items → Items

  pub data Pairs : Type 0 where
    end : Pairs
    entry : Value → Value → Pairs → Pairs

-- MakeTag
abbrev pub make_tag : ℕ → Value → Value
make_tag id inner = tag id (cons inner nil)

-- Value.IsZero
abbrev pub is_zero : Value → Bool
is_zero invalid = true
is_zero _ = false

-- Value.TagInner, on the items of a tag.
abbrev pub tag_inner : Items → Value
tag_inner nil = invalid
tag_inner (cons v _) = v

abbrev pub count_items : Items → ℕ
count_items nil = 0
count_items (cons _ xs) = suc (count_items xs)

abbrev pub count_pairs : Pairs → ℕ
count_pairs end = 0
count_pairs (entry _ _ ps) = suc (count_pairs ps)

-- A slice of entries while it is being built, and the map that it makes.
pub record MapEntry : Type 0 where
  pub key : Value
  pub val : Value

abbrev pub make_map : List MapEntry → Pairs
make_map [] = end
make_map (e ∷ es) = entry e.key e.val (make_map es)

abbrev pub entries : Pairs → List MapEntry
entries end = []
entries (entry k v ps) = record { key = k; val = v } ∷ entries ps

pub make_map-entries : (ps : Pairs) → make_map (entries ps) ≡ ps
make_map-entries end = refl
make_map-entries (entry k v ps) = ap (entry k v) (make_map-entries ps)
