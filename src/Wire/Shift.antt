-- ===== src/Wire/Shift.antt =====
-- Reads behind a prefix are reads of what follows it.
use opencdc.Base.{
  ℕ, suc, ◌+◌, ◌-◌, ◌≡◌, refl, ap, ◌∙◌, List, [], ◌∷◌, ◌++◌, length, get_elem?, get_or, drop, leb,
  done, arith, length-append, drop-length-append, take-length-append, true,
}
use opencdc.Wire.{index, slice, drop-drop}

module _ {A : Type 0} (pre xs : List A) where
  get_elem?-append : (p : List A) (k : ℕ) → get_elem? (p ++ xs) (length p + k) ≡ get_elem? xs k
  get_elem?-append [] k = ap (get_elem? xs) (omega arith)
  get_elem?-append (x ∷ p) k =
      ap (get_elem? (x ∷ (p ++ xs))) (shifted (length p) k) ∙ get_elem?-append p k
    where
      shifted : (a b : ℕ) → suc a + b ≡ suc (a + b)
      shifted a b = omega arith

  get_or-append_from :
      (p : List A) (k : ℕ) (d : A) → get_or (p ++ xs) (length p + k) d ≡ get_or xs k d
  get_or-append_from [] k d = ap (λ (i : ℕ). get_or xs i d) (omega arith)
  get_or-append_from (x ∷ p) k d =
      ap (λ (i : ℕ). get_or (x ∷ (p ++ xs)) i d) (shifted (length p) k) ∙ get_or-append_from p k d
    where
      shifted : (a b : ℕ) → suc a + b ≡ suc (a + b)
      shifted a b = omega arith

  pub get_or-append : (k : ℕ) (d : A) → get_or (pre ++ xs) (length pre + k) d ≡ get_or xs k d
  get_or-append k d = get_or-append_from pre k d

  pub drop-append : (k : ℕ) → drop (length pre + k) (pre ++ xs) ≡ drop k xs
  drop-append k = drop-drop (length pre) k (pre ++ xs) ∙ ap (drop k) (drop-length-append pre xs)

module _ {E A : Type 0} (pre xs : List A) where
  pub index-append : (k : ℕ) → index {E = E} (pre ++ xs) (length pre + k) ≡ index xs k
  unfolding index
  index-append k = rw (get_elem?-append pre xs pre k, index) refl

  pub slice-append :
      (i k : ℕ) → slice {E = E} (pre ++ xs) (length pre + i) (length pre + k) ≡ slice xs i k
  unfolding slice
  slice-append i k =
      rw
        (
          length-append pre xs,
          leb_add (length pre) i k,
          leb_add (length pre) k (length xs),
          sub_add (length pre) i k,
          drop-append pre xs i,
        )
        refl
    where
      leb_add : (p a b : ℕ) → leb (p + a) (p + b) ≡ leb a b
      leb_add p a b = ground arith

      sub_add : (p a b : ℕ) → p + b - (p + a) ≡ b - a
      sub_add p a b = omega arith

  -- The run that stands behind the prefix.
  pub slice-run :
      (run rest : List A)
      → xs ≡ run ++ rest
      → slice {E = E} (pre ++ xs) (length pre + 0) (length pre + length run) ≡ done run
  unfolding slice
  slice-run run rest e =
      slice-append 0 (length run)
      ∙ rw (e, length-append run rest, at_front (length run), within (length run) (length rest)) rw
          (sub_zero (length run), take-length-append run rest) refl
    where
      at_front : (n : ℕ) → leb 0 n ≡ true
      at_front n = ground arith

      within : (a b : ℕ) → leb a (a + b) ≡ true
      within a b = ground arith

      sub_zero : (a : ℕ) → a - 0 ≡ a
      sub_zero a = omega arith
