-- ===== src/Wire/Bounds.antt =====
-- Reads within the data.
use opencdc.Base.{ℕ, zero, suc, ◌+◌, ◌-◌, ◌<◌, ◌≤◌, ◌≡◌, List, [], ◌∷◌, length, arith, leb, true}
use Prim.Native.Nat.{min}
use opencdc.Base.{
  NoPanic, Ensures, Bool-cases, inl, inr, take, drop, length-take, length-drop, ap, ◌∙◌,
}
use opencdc.Wire.{index, slice, slice_from}

module _ {E A : Type 0} where
  pub index-NoPanic : (xs : List A) (i : ℕ) → i < length xs → NoPanic (index {E = E} xs i)
  unfolding index
  index-NoPanic [] i h = absurd (omega arith)
  index-NoPanic (x ∷ xs) zero h = record { safe = tt }
  index-NoPanic (x ∷ xs) (suc i) h = index-NoPanic xs i (omega arith)

  pub slice_from-NoPanic : (xs : List A) (i : ℕ) → i ≤ length xs → NoPanic (slice_from {E = E} xs i)
  unfolding slice_from
  slice_from-NoPanic xs i h = rw (within i (length xs) h) (record { safe = tt })
    where
      within : (a b : ℕ) → a ≤ b → leb a b ≡ true
      within a b l = ground arith

  pub slice-NoPanic :
      (xs : List A) (i j : ℕ) → i ≤ j → j ≤ length xs → NoPanic (slice {E = E} xs i j)
  unfolding slice
  slice-NoPanic xs i j h l = rw (within i j h, within j (length xs) l) (record { safe = tt })
    where
      within : (a b : ℕ) → a ≤ b → leb a b ≡ true
      within a b l' = ground arith

  -- A slice has the length that its ends give.
  pub slice-length :
      (xs : List A) (i j : ℕ) → Ensures (λ r. i + length r ≡ j) (slice {E = E} xs i j)
  unfolding slice
  slice-length xs i j = elim (Bool-cases (leb i j)) [
    | inr off ↦ rw off (record { holds = tt })
    | inl low ↦ rw low (elim (Bool-cases (leb j (length xs))) [
      | inr off ↦ rw off (record { holds = tt })
      | inl high ↦ rw high (record { holds = ground (arith, taken) })
    ])
  ]
    where
      taken : length (take (j - i) (drop i xs)) ≡ min (j - i) (length xs - i)
      taken = length-take (j - i) (drop i xs) ∙ ap (min (j - i)) (length-drop i xs)
