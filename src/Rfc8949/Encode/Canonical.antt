-- ===== src/Rfc8949/Encode/Canonical.antt =====
-- rfc8949/encode.go: encodeMap in deterministic mode, on maps whose entries come in another order.
use Prim.Native.Nat.{Ordering}
use corecbor.Prelude.{ℕ, suc, ◌≤◌, ◌≡◌, ◌≢◌, refl, sym, ap, ◌∙◌, true, false, List, [], arith}
use corecbor.Cbor.Value.{Value, Pairs, map, entry, count_pairs}
use corecbor.Wire.Head.{append_head}
use corecbor.Rfc8949.Options.{EncodeOpts}
use corecbor.Rfc8949.Order.{compare_order, insert, sort}
use corecbor.Rfc8949.Order.Exchange.{
  compare_order-compare_keys, compare_order-flip, compare_order-eq, compare_order_trans,
  insert-exchange, flip,
}
use corecbor.Rfc8949.Encode.{
  Encoded, ok, err, encode, encode_keys, encode_pairs, SortEntry, Keys, keys, bad_key, add_entry,
  compare_entries, write_entries, write_sorted, writes_in_order,
}

module _ (opts : EncodeOpts) where
  -- Maps with the same entries in another order: neighbours with different encoded keys may change
  -- places, any number of times.
  pub data Reordered : Pairs → Pairs → Type 0 where
    same : {ps : Pairs} → Reordered ps ps
    exchange :
        {k v l w : Value} {ps : Pairs} {a b : List ℕ}
        → encode opts [] k ≡ ok a
        → encode opts [] l ≡ ok b
        → a ≢ b
        → Reordered (entry k v (entry l w ps)) (entry l w (entry k v ps))
    behind :
        {k v : Value} {ps qs : Pairs} → Reordered ps qs → Reordered (entry k v ps) (entry k v qs)
    through : {ps qs rs : Pairs} → Reordered ps qs → Reordered qs rs → Reordered ps rs

  compare_entries-order :
      (x y : SortEntry) → compare_entries opts x y ≡ compare_order opts.sort_mode x.key y.key
  unfolding compare_entries
  compare_entries-order x y = sym (compare_order-compare_keys opts.sort_mode x.key y.key)

  entries-flip : (x y : SortEntry) → compare_entries opts y x ≡ flip (compare_entries opts x y)
  entries-flip x y =
      compare_entries-order y x
      ∙ compare_order-flip opts.sort_mode x.key y.key
      ∙ ap flip (sym (compare_entries-order x y))

  entries_trans :
      (x y z : SortEntry)
      → compare_entries opts x y ≢ Ordering.gt
      → compare_entries opts y z ≢ Ordering.gt
      → compare_entries opts x z ≢ Ordering.gt
  entries_trans x y z h k e =
      compare_order_trans opts.sort_mode x.key y.key z.key (λ p. h (compare_entries-order x y ∙ p))
        (λ p. k (compare_entries-order y z ∙ p)) (sym (compare_entries-order x z) ∙ e)

  sorted : Keys → Keys
  sorted (keys es) = keys (sort (compare_entries opts) es)
  sorted (bad_key e) = bad_key e

  entries_of : Keys → List SortEntry
  entries_of (keys es) = es
  entries_of (bad_key e) = []

  add_entry-exchange :
      (a b : List ℕ) (f g : List ℕ → Encoded) (more : Keys)
      → a ≢ b
      → sorted (add_entry (ok a) f (add_entry (ok b) g more))
        ≡ sorted (add_entry (ok b) g (add_entry (ok a) f more))
  unfolding sorted sort
  add_entry-exchange a b f g (bad_key e) h = refl
  add_entry-exchange a b f g (keys es) h = ap keys (
      insert-exchange (compare_entries opts) entries-flip entries_trans x y
        (sort (compare_entries opts) es)
        λ e. h (compare_order-eq opts.sort_mode a b (sym (compare_entries-order x y) ∙ e)))
    where
      x : SortEntry
      x = record { key = a; val = f }

      y : SortEntry
      y = record { key = b; val = g }

  add_entry-sorted :
      (r : Encoded) (f : List ℕ → Encoded) (k k' : Keys)
      → sorted k ≡ sorted k'
      → sorted (add_entry r f k) ≡ sorted (add_entry r f k')
  unfolding sorted sort entries_of
  add_entry-sorted (err e d) f k k' h = refl
  add_entry-sorted (ok a) f (keys es) (keys es') h =
      ap (λ l. keys (insert (compare_entries opts) (record { key = a; val = f }) l))
        (ap entries_of h)
  add_entry-sorted (ok a) f (keys es) (bad_key e) h = cc (h)
  add_entry-sorted (ok a) f (bad_key e) (keys es) h = cc (h)
  add_entry-sorted (ok a) f (bad_key e) (bad_key e') h = h

  Reordered-sorted :
      {ps qs : Pairs}
      → Reordered ps qs
      → sorted (encode_keys opts ps) ≡ sorted (encode_keys opts qs)
  unfolding encode_keys
  Reordered-sorted same = refl
  Reordered-sorted (exchange {k} {v} {l} {w} {ps} {a} {b} p q h) =
      rw (p, q)
        (add_entry-exchange a b (λ d. encode opts d v) (λ d. encode opts d w) (encode_keys opts ps)
          h)
  Reordered-sorted (behind {k} {v} {ps} {qs} r) =
      add_entry-sorted (encode opts [] k) (λ d. encode opts d v) (encode_keys opts ps)
        (encode_keys opts qs) (Reordered-sorted r)
  Reordered-sorted (through r s) = Reordered-sorted r ∙ Reordered-sorted s

  Reordered-count : {ps qs : Pairs} → Reordered ps qs → count_pairs ps ≡ count_pairs qs
  Reordered-count same = refl
  Reordered-count (exchange p q h) = refl
  Reordered-count (behind r) = ap suc (Reordered-count r)
  Reordered-count (through r s) = Reordered-count r ∙ Reordered-count s

  write_all : List ℕ → Keys → Encoded
  write_all dst (keys es) = write_entries dst es
  write_all dst (bad_key e) = err e dst

  write_sorted-sorted :
      (dst : List ℕ) (k : Keys) → write_sorted opts dst k ≡ write_all dst (sorted k)
  unfolding write_sorted write_all sorted
  write_sorted-sorted dst (keys es) = refl
  write_sorted-sorted dst (bad_key e) = refl

  pub encode-map_sorted :
      (dst : List ℕ) (ps : Pairs)
      → opts.deterministic ≡ true
      → 2 ≤ count_pairs ps
      → encode opts dst (map ps)
        ≡ write_sorted opts (append_head dst 0xa0 (count_pairs ps)) (encode_keys opts ps)
  unfolding encode
  encode-map_sorted dst ps d c =
      let several : writes_in_order opts (count_pairs ps) ≡ false =
        unfold writes_in_order in rw d (ground arith) in
      ap
        (λ b. elim b [
          | true ↦ encode_pairs opts (append_head dst 0xa0 (count_pairs ps)) ps
          | false ↦ write_sorted opts (append_head dst 0xa0 (count_pairs ps)) (encode_keys opts ps)
        ])
        several

-- In deterministic mode Encode gives one result for a map of two entries or more, whatever order its
-- entries have, if the encoded keys that change places differ; errors are results, too.
pub encode-reorder :
    (opts : EncodeOpts) (dst : List ℕ) (ps qs : Pairs)
    → opts.deterministic ≡ true
    → 2 ≤ count_pairs ps
    → Reordered opts ps qs
    → encode opts dst (map ps) ≡ encode opts dst (map qs)
encode-reorder opts dst ps qs d c r =
    encode-map_sorted opts dst ps d c
    ∙ write_sorted-sorted opts _ (encode_keys opts ps)
    ∙ rw (Reordered-count opts r, Reordered-sorted opts r)
        (sym (
          encode-map_sorted opts dst qs d (omega (arith, Reordered-count opts r))
          ∙ write_sorted-sorted opts _ (encode_keys opts qs)))
