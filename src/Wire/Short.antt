-- ===== src/Wire/Short.antt =====
-- Reads out of range.
use opencdc.Base.{
  ℕ, zero, suc, ◌-◌, ◌≤◌, ◌≡◌, refl, List, [], ◌∷◌, length, get_elem?, Option, some, none, arith,
}
use opencdc.Base.{Outcome, done, panicked, ◌>>=◌, if◌then◌else◌, leb, take, drop, Bool, true, false}
use opencdc.Wire.{index, slice}

get_elem?-short {ℓ} : {A : Type ℓ} (xs : List A) (i : ℕ) → length xs ≤ i → get_elem? xs i ≡ none
get_elem?-short [] i h = refl
get_elem?-short (x ∷ xs) zero h = absurd (omega arith)
get_elem?-short (x ∷ xs) (suc i) h = get_elem?-short xs i (omega arith)

module _ {E A B : Type 0} where
  -- A read panics where it reads out of range, and else where what follows panics.
  pub index-short :
      (xs : List A) (i : ℕ) (f : A → Outcome E B) → length xs ≤ i → (index xs i >>= f) ≡ panicked
  unfolding index
  index-short xs i f h = rw (get_elem?-short xs i h, ◌>>=◌, index) refl

  pub index_then :
      (xs : List A) (i : ℕ) (f : A → Outcome E B)
      → ((b : A) → f b ≡ panicked)
      → (index xs i >>= f) ≡ panicked
  unfolding index
  index_then xs i f h = go (get_elem? xs i)
    where
      go : (o : Option A) → ((elim o [ none ↦ panicked | some b ↦ done b ]) >>= f) ≡ panicked
      go none = refl
      go (some b) = h b

  pub slice_then :
      (xs : List A) (i k : ℕ) (f : List A → Outcome E B)
      → ((b : List A) → f b ≡ panicked)
      → (slice xs i k >>= f) ≡ panicked
  unfolding slice
  slice_then xs i k f h = go (leb i k) (leb k (length xs))
    where
      go :
          (a b : Bool)
          → ((if a then if b then done (take (k - i) (drop i xs)) else panicked else panicked)
              >>= f)
            ≡ panicked
      go false b = refl
      go true false = refl
      go true true = h _

  -- The same where the read is the first of several.
  pub index_among :
      {C : Type 0} (xs : List A) (i : ℕ) (g : A → Outcome E C) (f : C → Outcome E B)
      → ((b : A) → (g b >>= f) ≡ panicked)
      → ((index xs i >>= g) >>= f) ≡ panicked
  unfolding index
  index_among xs i g f h = go (get_elem? xs i)
    where
      go :
          (o : Option A) → (((elim o [ none ↦ panicked | some b ↦ done b ]) >>= g) >>= f) ≡ panicked
      go none = refl
      go (some b) = h b
