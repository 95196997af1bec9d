-- ===== src/Rfc8949/Order.antt =====
-- rfc8949/encode.go and rfc8949/preorder.go: the order of encoded map keys, and the sort. Two keys
-- that compare equal may come out of slices.SortFunc in any order; the insertion sort here is
-- stable.
pub mod Exchange
use Prim.Native.Nat.{compare, Ordering}
use corecbor.Prelude.{ℕ, List, [], ◌∷◌, ◌==◌, if◌then◌else◌, length}
use corecbor.Rfc8949.Options.{SortMode, bytewise_lex, length_first}

-- bytes.Compare
unfoldable pub compare_bytes : List ℕ → List ℕ → Ordering
compare_bytes [] [] = Ordering.eq
compare_bytes [] (y ∷ ys) = Ordering.lt
compare_bytes (x ∷ xs) [] = Ordering.gt
compare_bytes (x ∷ xs) (y ∷ ys) = elim (compare x y) [
  | Ordering.lt ↦ Ordering.lt
  | Ordering.eq ↦ compare_bytes xs ys
  | Ordering.gt ↦ Ordering.gt
]

-- The shortcut of encodeMap: keys that differ in the first byte are told apart by it alone.
unfoldable pub compare_first : List ℕ → List ℕ → Ordering
unfolding compare_bytes
compare_first (x ∷ xs) (y ∷ ys) = if x == y then compare_bytes (x ∷ xs) (y ∷ ys) else compare x y
compare_first xs ys = compare_bytes xs ys

-- The comparison that encodeMap hands to the sort.
unfoldable pub compare_keys : SortMode → List ℕ → List ℕ → Ordering
unfolding compare_first
compare_keys bytewise_lex a b = compare_first a b
compare_keys length_first a b = elim (compare (length a) (length b)) [
  | Ordering.lt ↦ Ordering.lt
  | Ordering.eq ↦ compare_first a b
  | Ordering.gt ↦ Ordering.gt
]

-- The comparison of PrecomputeMapOrder, which has no such shortcut.
unfoldable pub compare_order : SortMode → List ℕ → List ℕ → Ordering
unfolding compare_bytes
compare_order bytewise_lex a b = compare_bytes a b
compare_order length_first a b = elim (compare (length a) (length b)) [
  | Ordering.lt ↦ Ordering.lt
  | Ordering.eq ↦ compare_bytes a b
  | Ordering.gt ↦ Ordering.gt
]

module _ {ℓ} {A : Type ℓ} (cmp : A → A → Ordering) where
  unfoldable pub insert : A → List A → List A
  insert a [] = a ∷ []
  insert a (b ∷ bs) = elim (cmp a b) [ Ordering.gt ↦ b ∷ insert a bs | _ ↦ a ∷ b ∷ bs ]

  unfoldable pub sort : List A → List A
  unfolding insert
  sort [] = []
  sort (a ∷ rest) = insert a (sort rest)
