-- ===== src/Cwt/Faults.antt =====
-- cwt/claims.go: keys of a claims map that are no claims.
use corecbor.Prelude.{
  ℕ, ◌-◌, ◌^◌, ◌≡◌, ◌≢◌, ◌↔◌, refl, ap, ◌∙◌, Bool, true, false, List, [], ◌∷◌, ◌++◌, Option, none,
  some, ◌==◌, if◌then◌else◌,
}
use corecbor.Cbor.Value.{
  Value, Pairs, MapEntry, uint, neg_int, bytes, text, map, entry, end, entries,
}
use corecbor.Cwt.{Times, Keys}
use corecbor.Cwt.Any.{entry_key_int, from_value, is_hashable}
use corecbor.Cwt.Claims.{ClaimsSet}
use corecbor.Cwt.Parse.{
  Decoded, decoded, malformed, panics, and_then, claims_of, claim_steps, claim_step, private_claim,
  text_claim, bytes_claim, or_malformed, int_claim, empty_claims,
}

module _ (t : Times) (c : Keys) where
  -- A result that is no panic.
  record IsSafe (d : Decoded t c) : Type 0 where
    safe : d ≢ panics

  decoded-IsSafe : (s : ClaimsSet t c) → IsSafe (decoded s)
  decoded-IsSafe s = record { safe = λ e. cc (e) }

  malformed-IsSafe : IsSafe malformed
  malformed-IsSafe = record { safe = λ e. cc (e) }

  if-IsSafe : (b : Bool) (x y : Decoded t c) → IsSafe x → IsSafe y → IsSafe (if b then x else y)
  if-IsSafe true x y h k = h
  if-IsSafe false x y h k = k

  text_claim-IsSafe : (v : Value) (f : List ℕ → ClaimsSet t c) → IsSafe (text_claim t c v f)
  text_claim-IsSafe (text b) f = decoded-IsSafe (f b)
  text_claim-IsSafe v f = malformed-IsSafe

  bytes_claim-IsSafe : (v : Value) (f : List ℕ → ClaimsSet t c) → IsSafe (bytes_claim t c v f)
  bytes_claim-IsSafe (bytes b) f = decoded-IsSafe (f b)
  bytes_claim-IsSafe v f = malformed-IsSafe

  or_malformed-IsSafe :
      {A : Type 0} (o : Option A) (f : A → ClaimsSet t c) → IsSafe (or_malformed t c o f)
  or_malformed-IsSafe none f = malformed-IsSafe
  or_malformed-IsSafe (some x) f = decoded-IsSafe (f x)

  private_claim-IsSafe :
      (s : ClaimsSet t c) (k v : Value)
      → is_hashable (from_value k) ≡ true
      → IsSafe (private_claim t c s k v)
  unfolding private_claim
  private_claim-IsSafe s k v h = rw h (decoded-IsSafe _)

  int-is_hashable :
      (k : Value) (n : ℕ) → entry_key_int k ≡ some n → is_hashable (from_value k) ≡ true
  unfolding entry_key_int from_value
  int-is_hashable (uint m) n e = refl
  int-is_hashable (neg_int m) n e = refl
  int-is_hashable k n e = cc (e)

  int_claim-IsSafe :
      (s : ClaimsSet t c) (n : ℕ) (k v : Value)
      → is_hashable (from_value k) ≡ true
      → IsSafe (int_claim t c s n k v)
  unfolding int_claim
  int_claim-IsSafe s n k v h = if-IsSafe (n == 1) _ _ (text_claim-IsSafe v _) (
      if-IsSafe (n == 2) _ _ (text_claim-IsSafe v _) (
        if-IsSafe (n == 3) _ _ (text_claim-IsSafe v _) (
          if-IsSafe (n == 4) _ _ (or_malformed-IsSafe _ _) (
            if-IsSafe (n == 5) _ _ (or_malformed-IsSafe _ _) (
              if-IsSafe (n == 6) _ _ (or_malformed-IsSafe _ _) (
                if-IsSafe (n == 7) _ _ (bytes_claim-IsSafe v _) (
                  if-IsSafe (n == 8) _ _ (or_malformed-IsSafe _ _)
                    (private_claim-IsSafe s k v h))))))))

  -- A key that is neither an integer nor of a type that has a hash in Go, as a byte string, an array
  -- or null.
  abbrev IsUnusable : Value → Type 0
  IsUnusable k = (entry_key_int k ≡ none) × (is_hashable (from_value k) ≡ false)

  claim_step-panics :
      (s : ClaimsSet t c) (k v : Value) → (claim_step t c s k v ≡ panics) ↔ IsUnusable k
  unfolding claim_step private_claim
  claim_step-panics s k v = (
    λ e. by (entry_key_int k) (is_hashable (from_value k)) refl refl e,
    λ h. rw (claim_step, h.0, private_claim, h.1) refl,
  )
    where
      by :
          (o : Option ℕ) (b : Bool)
          → entry_key_int k ≡ o
          → is_hashable (from_value k) ≡ b
          → elim o [ none ↦ private_claim t c s k v | some n ↦ int_claim t c s n k v ] ≡ panics
          → (o ≡ none) × (b ≡ false)
      by (some n) b p q e = absurd ((int_claim-IsSafe s n k v (int-is_hashable k n p)).safe e)
      by none true p q e = absurd ((private_claim-IsSafe s k v q).safe e)
      by none false p q e = (refl, refl)

  -- The entries in front of one with an unusable key are read as claims.
  pub record IsReached (s : ClaimsSet t c) (es : List MapEntry) : Type 0 where
    pub front : List MapEntry
    pub bad : MapEntry
    pub back : List MapEntry
    pub claims : ClaimsSet t c
    pub split : es ≡ front ++ (bad ∷ back)
    pub reads : claim_steps t c s front ≡ decoded claims
    pub unusable : IsUnusable bad.key

  claim_steps-front :
      (s s' : ClaimsSet t c) (front es : List MapEntry)
      → claim_steps t c s front ≡ decoded s'
      → claim_steps t c s (front ++ es) ≡ claim_steps t c s' es
  unfolding claim_steps
  claim_steps-front s s' [] es h = ap (λ d. and_then t c d λ x. claim_steps t c x es) h
  claim_steps-front s s' (e ∷ front) es h =
      by (claim_step t c s e.key e.val) (λ x. claim_steps-front x s' front es) h
    where
      by :
          (d : Decoded t c)
          → ((x : ClaimsSet t c)
              → claim_steps t c x front ≡ decoded s'
              → claim_steps t c x (front ++ es) ≡ claim_steps t c s' es)
          → (and_then t c d λ x. claim_steps t c x front) ≡ decoded s'
          → (and_then t c d λ x. claim_steps t c x (front ++ es)) ≡ claim_steps t c s' es
      by (decoded x) k g = k x g
      by malformed k g = cc (g)
      by panics k g = cc (g)

  claim_steps-IsReached :
      (s : ClaimsSet t c) (es : List MapEntry) → claim_steps t c s es ≡ panics → IsReached s es
  unfolding claim_steps
  claim_steps-IsReached s [] h = cc (h)
  claim_steps-IsReached s (e ∷ es) h =
      by (claim_step t c s e.key e.val) (λ x. claim_steps-IsReached x es) refl h
    where
      by :
          (d : Decoded t c)
          → ((x : ClaimsSet t c) → claim_steps t c x es ≡ panics → IsReached x es)
          → claim_step t c s e.key e.val ≡ d
          → (and_then t c d λ x. claim_steps t c x es) ≡ panics
          → IsReached s (e ∷ es)
      by (decoded x) k q g =
          let later = k x g in
          record {
            front = e ∷ later.front;
            bad = later.bad;
            back = later.back;
            claims = later.claims;
            split = ap (λ l. e ∷ l) later.split;
            reads = rw q later.reads;
            unusable = later.unusable;
          }
      by malformed k q g = cc (g)
      by panics k q g = record {
        front = [];
        bad = e;
        back = es;
        claims = s;
        split = refl;
        reads = refl;
        unusable = (claim_step-panics s e.key e.val).0 q;
      }

  -- DecodeClaimsSet panics on a map if and only if one of its keys is neither an integer nor of a type
  -- that has a hash in Go, and the entries in front of it are read without an error: no other map makes
  -- it panic, and nothing behind such a key matters.
  pub claims_of-panics :
      (ps : Pairs) → (claims_of t c (map ps) ≡ panics) ↔ IsReached (empty_claims t c) (entries ps)
  unfolding claims_of claim_steps
  claims_of-panics ps = (
    claim_steps-IsReached (empty_claims t c) (entries ps),
    λ h.
        let bad_step = (claim_step-panics h.claims h.bad.key h.bad.val).1 h.unusable in
        rw h.split (claim_steps-front (empty_claims t c) h.claims h.front (h.bad ∷ h.back) h.reads)
        ∙ ap (λ d. and_then t c d λ x. claim_steps t c x h.back) bad_step,
  )

  -- DecodeClaimsSet reads the value of the key 1 - 2^64, which is no registered claim, as the issuer.
  pub claims_of-issuer :
      (b : List ℕ)
      → claims_of t c (map (entry (neg_int (2 ^ 64 - 2)) (text b) end))
        ≡ decoded (record (empty_claims t c) { issuer = b })
  unfolding claims_of claim_steps claim_step int_claim entry_key_int
  claims_of-issuer b = refl
