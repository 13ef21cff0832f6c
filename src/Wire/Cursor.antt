-- ===== src/Wire/Cursor.antt =====
-- What stands in `bytes` from an offset on. The offset-based readers are proved through it, one
-- item at a time.
use opencdc.Base.{ℕ, zero, suc, ◌+◌, ◌-◌, ◌<◌, ◌≤◌, ◌≡◌, refl, ap, sym, ◌∙◌}
use opencdc.Base.{List, [], ◌∷◌, ◌++◌, length, get_elem?, drop, some, arith}
use opencdc.Base.{length-append, drop-length-append, length-drop}

abbrev pub At : {A : Type 0} → List A → ℕ → List A → Type 0
At bytes i rest = drop i bytes ≡ rest

module _ {A : Type 0} where
  drop_congr : (i j : ℕ) (bytes : List A) → i ≡ j → drop i bytes ≡ drop j bytes
  drop_congr i j bytes e = ap (λ (k : ℕ). drop k bytes) e

  pub drop-nil : (i : ℕ) → drop i (let e : List A = [] in e) ≡ []
  drop-nil zero = refl
  drop-nil (suc i) = refl

  pub drop-drop : (i j : ℕ) (bytes : List A) → drop (i + j) bytes ≡ drop j (drop i bytes)
  drop-drop zero j bytes = drop_congr (0 + j) j bytes (omega arith)
  drop-drop (suc i) j [] = drop-nil (suc i + j) ∙ sym (drop-nil j)
  drop-drop (suc i) j (x ∷ xs) =
      drop_congr (suc i + j) (suc (i + j)) (x ∷ xs) (omega arith) ∙ drop-drop i j xs

  -- The item at the cursor.
  pub At-head :
      (bytes : List A) (i : ℕ) (x : A) (rest : List A)
      → At bytes i (x ∷ rest)
      → get_elem? bytes i ≡ some x
  At-head [] zero x rest h = cc
  At-head [] (suc i) x rest h = cc
  At-head (y ∷ ys) zero x rest h = ground arith
  At-head (y ∷ ys) (suc i) x rest h = At-head ys i x rest h

  -- The cursor moves past a run of items.
  pub At-append :
      (bytes : List A) (i : ℕ) (run rest : List A)
      → At bytes i (run ++ rest)
      → At bytes (i + length run) rest
  At-append bytes i run rest h = drop-drop i (length run) bytes ∙ rw h (drop-length-append run rest)

  pub At-tail :
      (bytes : List A) (i : ℕ) (x : A) (rest : List A)
      → At bytes i (x ∷ rest)
      → At bytes (i + 1) rest
  At-tail bytes i x rest h = At-append bytes i (x ∷ []) rest h

  pub At-length :
      (bytes : List A) (i : ℕ) (rest : List A) → At bytes i rest → length rest ≡ length bytes - i
  At-length bytes i rest h = ap length (sym h) ∙ length-drop i bytes

  -- A cursor before at least one item stands inside.
  pub At-lt-length :
      (bytes : List A) (i : ℕ) (x : A) (rest : List A) → At bytes i (x ∷ rest) → i < length bytes
  At-lt-length bytes i x rest h = omega (arith, At-length bytes i (x ∷ rest) h)

  -- A cursor before a run with `more` items in it stands that far from the end.
  pub At-room :
      (bytes : List A) (i : ℕ) (run rest : List A)
      → 0 < length run
      → At bytes i (run ++ rest)
      → i + length run ≤ length bytes
  At-room bytes i run rest p h =
      omega (arith, At-length bytes i (run ++ rest) h, length-append run rest)
