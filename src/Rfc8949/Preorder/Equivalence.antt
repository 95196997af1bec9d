-- ===== src/Rfc8949/Preorder/Equivalence.antt =====
-- rfc8949/preorder.go, rfc8949/encode.go: EncodeMapPreordered against encodeMap.
use Prim.Native.Nat.{Ordering}
use corecbor.Prelude.{
  ℕ, zero, suc, ◌+◌, ◌≤◌, ◌<◌, ◌≡◌, refl, sym, ap, ◌∙◌, true, List, [], ◌∷◌, ◌++◌, some,
  append_assoc, length, length-append, get_elem?, All, arith,
}
use mathlib.Core.Path.{ap₂}
use corecbor.Cbor.Value.{Value, Pairs, MapEntry, null, map, end, entry, entries, count_pairs}
use corecbor.Wire.Head.{append_head}
use corecbor.Rfc8949.Options.{EncodeOpts}
use corecbor.Rfc8949.Order.Exchange.{compare_order-compare_keys}
use corecbor.Rfc8949.Order.{insert, sort}
use corecbor.Rfc8949.Encode.{
  Encoded, ok, err, bind, encode, encode_keys, encode_pairs, SortEntry, Keys, keys, add_entry,
  compare_entries, write_entries, write_sorted, writes_in_order,
}
use corecbor.Rfc8949.Encode
use corecbor.Rfc8949.Encode.Canonical.{encode-map_sorted}
use corecbor.Rfc8949.Preorder.{
  KeyIndex, KeyOrder, order, bad_key, add_key, encode_each, compare_indices, sort_order,
  precompute_map_order, Written, written, then_write, write_ordered, encode_map_preordered,
}

map_list {ℓ κ} : {A : Type ℓ} {B : Type κ} → (A → B) → List A → List B
map_list f [] = []
map_list f (x ∷ xs) = f x ∷ map_list f xs

module _ {ℓ κ} {A : Type ℓ} {B : Type κ} (f : A → B) (cmp : A → A → Ordering)
    (cmp' : B → B → Ordering) (agree : (a b : A) → cmp a b ≡ cmp' (f a) (f b)) where
  insert-map :
      (a : A) (xs : List A) → map_list f (insert cmp a xs) ≡ insert cmp' (f a) (map_list f xs)
  unfolding insert map_list
  insert-map a [] = refl
  insert-map a (x ∷ xs) =
      rw (← agree a x)
        (elim (cmp a x)
          as (λ c.
            map_list f (elim c [ Ordering.gt ↦ x ∷ insert cmp a xs | _ ↦ a ∷ x ∷ xs ]) ≡ elim c [
              | Ordering.gt ↦ f x ∷ insert cmp' (f a) (map_list f xs)
              | _ ↦ f a ∷ f x ∷ map_list f xs
            ]) [
              | Ordering.lt ↦ refl
              | Ordering.eq ↦ refl
              | Ordering.gt ↦ ap (λ r. f x ∷ r) (insert-map a xs)
            ])

  sort-map : (xs : List A) → map_list f (sort cmp xs) ≡ sort cmp' (map_list f xs)
  unfolding sort map_list
  sort-map [] = refl
  sort-map (x ∷ xs) = insert-map x (sort cmp xs) ∙ ap (insert cmp' (f x)) (sort-map xs)

module _ {ℓ κ} {A : Type ℓ} (P : A → Type κ) (cmp : A → A → Ordering) where
  All-insert : (a : A) (xs : List A) → P a → All P xs → All P (insert cmp a xs)
  unfolding insert
  All-insert a [] h k = (h, tt)
  All-insert a (x ∷ xs) h k =
      elim (cmp a x)
        as (λ c. All P (elim c [ Ordering.gt ↦ x ∷ insert cmp a xs | _ ↦ a ∷ x ∷ xs ])) [
          | Ordering.lt ↦ (h, k)
          | Ordering.eq ↦ (h, k)
          | Ordering.gt ↦ (k.0, All-insert a xs h k.1)
        ]

  All-sort : (xs : List A) → All P xs → All P (sort cmp xs)
  unfolding sort
  All-sort [] h = tt
  All-sort (x ∷ xs) h = All-insert x (sort cmp xs) h.0 (All-sort xs h.1)

-- The entry at an index, and what stands for it where there is none.
entry_at : List MapEntry → ℕ → MapEntry
entry_at [] i = record { key = null; val = null }
entry_at (e ∷ es) zero = e
entry_at (e ∷ es) (suc i) = entry_at es i

get_elem?-entry_at :
    (m : List MapEntry) (i : ℕ) → i < length m → get_elem? m i ≡ some (entry_at m i)
unfolding entry_at
get_elem?-entry_at [] i h = absurd (omega arith)
get_elem?-entry_at (e ∷ es) zero h = refl
get_elem?-entry_at (e ∷ es) (suc i) h = get_elem?-entry_at es i (omega arith)

entry_at-append :
    (pre : List MapEntry) (e : MapEntry) (es : List MapEntry)
    → entry_at (pre ++ (e ∷ es)) (length pre) ≡ e
unfolding entry_at
entry_at-append [] e es = refl
entry_at-append (x ∷ pre) e es = entry_at-append pre e es

-- The keys in front of their values.
abbrev pub keys_of : Pairs → List Value
keys_of end = []
keys_of (entry k v ps) = k ∷ keys_of ps

-- All indices of an order lie in a map of `n` entries.
abbrev InRange : ℕ → KeyOrder → Type 0
InRange n (order ks) = All (λ k. k.index < n) ks
InRange n (bad_key e) = Unit

module _ (opts : EncodeOpts) where
  module _ (m : List MapEntry) where
    sort_entry : KeyIndex → SortEntry
    sort_entry k = record { key = k.encoded; val = λ d. encode opts d (entry_at m k.index).val }

    sort_keys : KeyOrder → Keys
    sort_keys (order ks) = keys (map_list sort_entry ks)
    sort_keys (bad_key e) = Encode.bad_key e

    add_key-add_entry :
        (r : Encoded) (i : ℕ) (more : KeyOrder)
        → add_entry r (λ d. encode opts d (entry_at m i).val) (sort_keys more)
          ≡ sort_keys (add_key r i more)
    unfolding sort_keys sort_entry map_list
    add_key-add_entry (ok k) i (order ks) = refl
    add_key-add_entry (ok k) i (bad_key e) = refl
    add_key-add_entry (err e d) i more = refl

    then_write-bind :
        (r : Encoded) (g : List ℕ → Written) (g' : List ℕ → Encoded)
        → ((d : List ℕ) → g d ≡ written (g' d))
        → then_write r g ≡ written (bind r g')
    then_write-bind (ok d) g g' h = h d
    then_write-bind (err e d) g g' h = refl

    write_ordered-write_entries :
        (ks : List KeyIndex) (dst : List ℕ)
        → All (λ k. k.index < length m) ks
        → write_ordered opts m dst ks ≡ written (write_entries dst (map_list sort_entry ks))
    unfolding write_ordered write_entries map_list sort_entry
    write_ordered-write_entries [] dst h = refl
    write_ordered-write_entries (k ∷ ks) dst h =
        rw (get_elem?-entry_at m k.index h.0, write_ordered)
          (then_write-bind (encode opts (dst ++ k.encoded) (entry_at m k.index).val) _ _
            λ d. write_ordered-write_entries ks d h.1)

  encode_keys-encode_each :
      (pre : List MapEntry) (ps : Pairs)
      → encode_keys opts ps
        ≡ sort_keys (pre ++ entries ps) (encode_each opts (length pre) (keys_of ps))
  unfolding encode_keys encode_each sort_keys map_list
  encode_keys-encode_each pre end = refl
  encode_keys-encode_each pre (entry k v ps) =
      let e : MapEntry = record { key = k; val = v } in
      let here : entry_at (pre ++ (e ∷ entries ps)) (length pre) ≡ e =
        entry_at-append pre e (entries ps) in
      let more = encode_each opts (suc (length pre)) (keys_of ps) in
      let later : encode_keys opts ps ≡ sort_keys (pre ++ (e ∷ entries ps)) more =
        encode_keys-encode_each (pre ++ (e ∷ [])) ps
        ∙ ap₂ (λ m i. sort_keys m (encode_each opts i (keys_of ps)))
            (append_assoc pre (e ∷ []) (entries ps)) (length-snoc pre e) in
      ap₂ (λ w r. add_entry (encode opts [] k) (λ d. encode opts d w) r)
        (ap (λ x. x.val) (sym here)) later
      ∙ add_key-add_entry (pre ++ (e ∷ entries ps)) (encode opts [] k) (length pre) more
    where
      length-snoc : (xs : List MapEntry) (x : MapEntry) → length (xs ++ (x ∷ [])) ≡ suc (length xs)
      length-snoc xs x = omega (arith, length-append xs (x ∷ []))

  add_key-InRange :
      (n i : ℕ) (r : Encoded) (more : KeyOrder)
      → i < n
      → InRange n more
      → InRange n (add_key r i more)
  add_key-InRange n i (ok k) (order ks) h g = (h, g)
  add_key-InRange n i (ok k) (bad_key e) h g = tt
  add_key-InRange n i (err e d) more h g = tt

  encode_each-InRange :
      (n i : ℕ) (ks : List Value) → i + length ks ≤ n → InRange n (encode_each opts i ks)
  unfolding encode_each
  encode_each-InRange n i [] h = tt
  encode_each-InRange n i (k ∷ ks) h =
      add_key-InRange n i (encode opts [] k) (encode_each opts (suc i) ks) (omega (arith, h))
        (encode_each-InRange n (suc i) ks (omega (arith, h)))

  count-entries :
      (ps : Pairs) → (length (entries ps) ≡ count_pairs ps) × (length (keys_of ps) ≡ count_pairs ps)
  count-entries end = (refl, refl)
  count-entries (entry k v ps) = (ap suc (count-entries ps).0, ap suc (count-entries ps).1)

  write_sorted-write_ordered :
      (m : List MapEntry) (dst : List ℕ) (r : KeyOrder) (ks : List KeyIndex)
      → InRange (length m) r
      → sort_order opts.sort_mode r ≡ order ks
      → write_ordered opts m dst ks ≡ written (write_sorted opts dst (sort_keys m r))
  unfolding sort_keys write_sorted
  write_sorted-write_ordered m dst (order es) ks h e =
      let by = compare_indices opts.sort_mode in
      let sorted : sort by es ≡ ks = ap indices e in
      rw (← sorted) (
        write_ordered-write_entries m (sort by es) dst (All-sort _ by es h)
        ∙ ap (λ xs. written (write_entries dst xs))
            (sort-map (sort_entry m) by (compare_entries opts) (agree m) es))
    where
      indices : KeyOrder → List KeyIndex
      indices (order xs) = xs
      indices (bad_key x) = []

      agree :
          (m : List MapEntry) (a b : KeyIndex)
          → compare_indices opts.sort_mode a b
            ≡ compare_entries opts (sort_entry m a) (sort_entry m b)
      agree m a b =
          unfold compare_indices compare_entries sort_entry in
          compare_order-compare_keys opts.sort_mode a.encoded b.encoded
  write_sorted-write_ordered m dst (bad_key x) ks h e = cc (e)

-- In deterministic mode, with an order of its keys computed beforehand under the same options,
-- EncodeMapPreordered writes for a map of two entries or more what Encode writes, and fails where it
-- fails; it does not panic.
pub encode_map_preordered-encode :
    (opts : EncodeOpts) (dst : List ℕ) (ps : Pairs) (ks : List KeyIndex)
    → opts.deterministic ≡ true
    → 2 ≤ count_pairs ps
    → precompute_map_order (keys_of ps) opts.sort_mode opts ≡ order ks
    → encode_map_preordered dst (entries ps) ks opts ≡ written (encode opts dst (map ps))
unfolding precompute_map_order encode_map_preordered
encode_map_preordered-encode opts dst ps ks d c e =
    let n = count-entries opts ps in
    rw (encode-map_sorted opts dst ps d c, encode_keys-encode_each opts [] ps, n.0)
      (write_sorted-write_ordered opts (entries ps) (append_head dst 0xa0 (count_pairs ps))
        (encode_each opts 0 (keys_of ps)) ks
        (encode_each-InRange opts (length (entries ps)) 0 (keys_of ps) (omega (arith, n.0, n.1))) e)
