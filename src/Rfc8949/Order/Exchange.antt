-- ===== src/Rfc8949/Order/Exchange.antt =====
-- rfc8949/encode.go: laws of the order of encoded keys, and of the sort on two entries that
-- change places.
use Prim.Native.Nat.{Ordering}
use corecbor.Prelude.{ℕ, ◌≡◌, ◌≢◌, refl, sym, ap, ◌∙◌, ◌⊎◌, inl, inr, List, [], ◌∷◌, arith}
use corecbor.Rfc8949.Options.{SortMode, bytewise_lex, length_first}
use corecbor.Rfc8949.Order.{compare_bytes, compare_first, compare_keys, compare_order, insert}

-- The shortcut on the first byte makes no difference.
pub compare_first-compare_bytes : (xs ys : List ℕ) → compare_first xs ys ≡ compare_bytes xs ys
unfolding compare_first compare_bytes
compare_first-compare_bytes [] ys = refl
compare_first-compare_bytes (x ∷ xs) [] = refl
compare_first-compare_bytes (x ∷ xs) (y ∷ ys) = ground arith

pub compare_order-compare_keys :
    (mode : SortMode) (a b : List ℕ) → compare_order mode a b ≡ compare_keys mode a b
unfolding compare_order compare_keys
compare_order-compare_keys bytewise_lex a b = sym (compare_first-compare_bytes a b)
compare_order-compare_keys length_first a b = ground (arith, compare_first-compare_bytes a b)

abbrev pub flip : Ordering → Ordering
flip Ordering.lt = Ordering.gt
flip Ordering.eq = Ordering.eq
flip Ordering.gt = Ordering.lt

compare_bytes-flip : (a b : List ℕ) → compare_bytes b a ≡ flip (compare_bytes a b)
unfolding compare_bytes
compare_bytes-flip [] [] = refl
compare_bytes-flip [] (y ∷ ys) = refl
compare_bytes-flip (x ∷ xs) [] = refl
compare_bytes-flip (x ∷ xs) (y ∷ ys) = ground (arith, compare_bytes-flip xs ys)

compare_bytes-eq : (a b : List ℕ) → compare_bytes a b ≡ Ordering.eq → a ≡ b
unfolding compare_bytes
compare_bytes-eq [] [] h = refl
compare_bytes-eq [] (y ∷ ys) h = cc (h)
compare_bytes-eq (x ∷ xs) [] h = cc (h)
compare_bytes-eq (x ∷ xs) (y ∷ ys) h = ground (arith, compare_bytes-eq xs ys)

compare_bytes_trans :
    (a b c : List ℕ)
    → compare_bytes a b ≢ Ordering.gt
    → compare_bytes b c ≢ Ordering.gt
    → compare_bytes a c ≢ Ordering.gt
unfolding compare_bytes
compare_bytes_trans [] b [] h k = cc
compare_bytes_trans [] b (z ∷ zs) h k = cc
compare_bytes_trans (x ∷ xs) [] c h k = absurd (h refl)
compare_bytes_trans (x ∷ xs) (y ∷ ys) [] h k = absurd (k refl)
compare_bytes_trans (x ∷ xs) (y ∷ ys) (z ∷ zs) h k = ground (arith, compare_bytes_trans xs ys zs)

pub compare_order-flip :
    (mode : SortMode) (a b : List ℕ) → compare_order mode b a ≡ flip (compare_order mode a b)
unfolding compare_order
compare_order-flip bytewise_lex a b = compare_bytes-flip a b
compare_order-flip length_first a b = ground (arith, compare_bytes-flip a b)

pub compare_order-eq :
    (mode : SortMode) (a b : List ℕ) → compare_order mode a b ≡ Ordering.eq → a ≡ b
unfolding compare_order
compare_order-eq bytewise_lex a b h = compare_bytes-eq a b h
compare_order-eq length_first a b h = ground (arith, compare_bytes-eq a b)

pub compare_order_trans :
    (mode : SortMode) (a b c : List ℕ)
    → compare_order mode a b ≢ Ordering.gt
    → compare_order mode b c ≢ Ordering.gt
    → compare_order mode a c ≢ Ordering.gt
unfolding compare_order
compare_order_trans bytewise_lex a b c h k = compare_bytes_trans a b c h k
compare_order_trans length_first a b c h k = ground (arith, compare_bytes_trans a b c)

gt-cases : (o : Ordering) → (o ≡ Ordering.gt) ⊎ (o ≢ Ordering.gt)
gt-cases Ordering.lt = inr cc
gt-cases Ordering.eq = inr cc
gt-cases Ordering.gt = inl refl

module _ {ℓ} {A : Type ℓ} (cmp : A → A → Ordering) (cmp-flip : (a b : A) → cmp b a ≡ flip (cmp a b))
    (cmp-trans : (a b c : A)
      → cmp a b ≢ Ordering.gt
      → cmp b c ≢ Ordering.gt
      → cmp a c ≢ Ordering.gt) where
  insert-behind :
      (a x : A) (xs : List A) → cmp a x ≡ Ordering.gt → insert cmp a (x ∷ xs) ≡ x ∷ insert cmp a xs
  unfolding insert
  insert-behind a x xs h = rw (h, insert) refl

  insert-front :
      (a x : A) (xs : List A) → cmp a x ≢ Ordering.gt → insert cmp a (x ∷ xs) ≡ a ∷ x ∷ xs
  unfolding insert
  insert-front a x xs h = ground arith

  insert-less :
      (a b : A) (xs : List A)
      → cmp a b ≡ Ordering.lt
      → insert cmp a (insert cmp b xs) ≡ insert cmp b (insert cmp a xs)
  insert-less a b [] h =
      unfold insert in
      rw (insert-front a b [] (rw h cc), insert-behind b a [] (cmp-flip a b ∙ ap flip h)) refl
  insert-less a b (x ∷ xs) h = elim (gt-cases (cmp b x)) [
    | inr q ↦
        rw
          (
            insert-front b x xs q,
            insert-front a b (x ∷ xs) less,
            insert-front a x xs (cmp-trans a b x less q),
            insert-behind b a (x ∷ xs) more,
            insert-front b x xs q,
          )
          refl
    | inl q ↦ elim (gt-cases (cmp a x)) [
      | inr p ↦
          rw
            (
              insert-behind b x xs q,
              insert-front a x (insert cmp b xs) p,
              insert-front a x xs p,
              insert-behind b a (x ∷ xs) more,
              insert-behind b x xs q,
            )
            refl
      | inl p ↦
          rw
            (
              insert-behind b x xs q,
              insert-behind a x (insert cmp b xs) p,
              insert-behind a x xs p,
              insert-behind b x (insert cmp a xs) q,
            )
            (ap (λ r. x ∷ r) (insert-less a b xs h))
    ]
  ]
    where
      less : cmp a b ≢ Ordering.gt
      less = rw h cc

      more : cmp b a ≡ Ordering.gt
      more = cmp-flip a b ∙ ap flip h

  -- Two entries that do not compare equal are inserted in either order alike.
  pub insert-exchange :
      (a b : A) (xs : List A)
      → cmp a b ≢ Ordering.eq
      → insert cmp a (insert cmp b xs) ≡ insert cmp b (insert cmp a xs)
  insert-exchange a b xs h = by (cmp a b) refl
    where
      by :
          (o : Ordering)
          → cmp a b ≡ o
          → insert cmp a (insert cmp b xs) ≡ insert cmp b (insert cmp a xs)
      by Ordering.lt e = insert-less a b xs e
      by Ordering.eq e = absurd (h e)
      by Ordering.gt e = sym (insert-less b a xs (cmp-flip a b ∙ ap flip e))
