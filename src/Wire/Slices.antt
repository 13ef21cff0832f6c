-- ===== src/Wire/Slices.antt =====
-- Slices that start at a cursor.
use opencdc.Base.{ℕ, ◌+◌, ◌-◌, ◌≤◌, ◌≡◌, List, ◌∷◌, ◌++◌, length, arith}
use opencdc.Base.{take-length-append, leb, true, done}
use opencdc.Wire.{At, At-head, index, slice, slice_from}

module _ {E A : Type 0} where
  pub index-At :
      (bytes : List A) (i : ℕ) (x : A) (rest : List A)
      → At bytes i (x ∷ rest)
      → index {E = E} bytes i ≡ done x
  unfolding index
  index-At bytes i x rest h = rw (At-head bytes i x rest h, index)

  pub slice-At :
      (bytes : List A) (i : ℕ) (run rest : List A)
      → i + length run ≤ length bytes
      → At bytes i (run ++ rest)
      → slice {E = E} bytes i (i + length run) ≡ done run
  unfolding slice
  slice-At bytes i run rest room h =
      rw (leb_le i (i + length run) (omega arith), leb_le _ _ room, add_sub i (length run), h)
        (rw take-length-append)
    where
      leb_le : (a b : ℕ) → a ≤ b → leb a b ≡ true
      leb_le a b l = ground arith

      add_sub : (a b : ℕ) → a + b - a ≡ b
      add_sub a b = omega arith

  pub slice_from-At :
      (bytes : List A) (i : ℕ) (rest : List A)
      → i ≤ length bytes
      → At bytes i rest
      → slice_from {E = E} bytes i ≡ done rest
  unfolding slice_from
  slice_from-At bytes i rest l h = rw h (ground arith)
