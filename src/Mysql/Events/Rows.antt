-- ===== src/Mysql/Events/Rows.antt =====
-- mysql/binlog.rs: the loop over the rows of an event.
use opencdc.Base.{
  ℕ, zero, suc, ◌+◌, ◌<◌, ◌≤◌, ◌≡◌, refl, sym, length, Bytes, Text, List, [], ◌∷◌, arith, false,
}
use opencdc.Base.{
  ◌==◌, ltb, if◌then◌else◌, Outcome, done, Bool-cases, inl, inr, ◌>>=◌, lt→ltb, le→ltb, bind_congr,
  All,
}
use opencdc.Base.{
  NoPanic, NoPanic-done, NoPanic-bind, NoPanic-if, Ensures, Ensures-done, Ensures-bind,
  Ensures-then, ◌∙◌, ◌⊎◌,
}
use opencdc.Core.Json.{SerdeJson}
use opencdc.Wire.{slice_from}
use opencdc.Wire.Bounds.{slice_from-NoPanic}
use opencdc.Mysql.Row.{read_row}
use opencdc.Mysql.Row.Safety.{read_row-NoPanic, read_row-length}
use opencdc.Mysql.Events.{read_rows, read_row_pairs}

module _ (j : SerdeJson) (hex_encode : Bytes → Text) (bytes : Bytes) (types metas : List ℕ) where
  open j use {Value}

  abbrev Rows : Type 0
  Rows = Outcome Text (List (List Value))

  abbrev loop : ℕ → ℕ → Rows
  loop fuel pos = read_rows j hex_encode fuel bytes types metas pos

  loop_end : (fuel pos : ℕ) → length bytes ≤ pos → loop fuel pos ≡ done []
  unfolding read_rows
  loop_end zero pos h = refl
  loop_end (suc fuel) pos h = rw (le→ltb pos (length bytes) h, read_rows)

  abbrev after : List Value → ℕ → Rows → Rows
  after row n more = if n == 0 then done [] else (do rows ← more; done (row ∷ rows))

  after_congr :
      (row : List Value) (n : ℕ) (a b : Rows)
      → ((n == 0) ≡ false → a ≡ b)
      → after row n a ≡ after row n b
  after_congr row n a b h = elim (Bool-cases (n == 0)) [ inl e ↦ rw e | inr e ↦ rw (e, h e) ]

  loop_step :
      (fuel pos : ℕ)
      → pos < length bytes
      → loop (suc fuel) pos ≡ (
          slice_from bytes pos >>= λ rest.
          read_row j hex_encode rest types metas >>= λ r. after r.0 r.1 (loop fuel (pos + r.1)))
  unfolding read_rows
  loop_step fuel pos h = rw (lt→ltb pos (length bytes) h, read_rows)

  -- The fuel does not show: any two amounts that cover the bytes left give the same outcome. The parsers
  -- start with as many rounds as there are bytes.
  pub read_rows_fuel :
      (f g pos : ℕ)
      → length bytes ≤ pos + f
      → length bytes ≤ pos + g
      → read_rows j hex_encode f bytes types metas pos
        ≡ read_rows j hex_encode g bytes types metas pos
  read_rows_fuel zero g pos hf hg =
      loop_end zero pos (omega arith) ∙ sym (loop_end g pos (omega arith))
  read_rows_fuel (suc f) zero pos hf hg =
      loop_end (suc f) pos (omega arith) ∙ sym (loop_end zero pos (omega arith))
  read_rows_fuel (suc f) (suc g) pos hf hg = elim (Bool-cases (ltb pos (length bytes))) [
    | inr out ↦ loop_end (suc f) pos (ground arith) ∙ sym (loop_end (suc g) pos (ground arith))
    | inl inside ↦
        loop_step f pos (ground arith)
        ∙ bind_congr (slice_from bytes pos) _ _ (λ rest.
          bind_congr (read_row j hex_encode rest types metas) _ _ (λ r.
            after_congr r.0 r.1 _ _
              (λ e. read_rows_fuel f g (pos + r.1) (ground arith) (ground arith))))
        ∙ sym (loop_step g pos (ground arith))
  ]

  -- The loop over the rows of a write or a delete reads nothing out of range, whatever the bytes.
  pub read_rows-NoPanic :
      (fuel pos : ℕ) → NoPanic (read_rows j hex_encode fuel bytes types metas pos)
  unfolding read_rows
  read_rows-NoPanic zero pos = NoPanic-done _
  read_rows-NoPanic (suc fuel) pos = elim (Bool-cases (ltb pos (length bytes))) [
    | inr out ↦ rw (out, read_rows) (NoPanic-done _)
    | inl inside ↦
        rw (inside, read_rows)
          (NoPanic-bind _ _ (slice_from-NoPanic bytes pos (ground arith)) λ rest.
            NoPanic-bind _ _ (read_row-NoPanic j hex_encode rest types metas) λ r.
              NoPanic-if (r.1 == 0) _ _ (λ e. NoPanic-done _)
                λ e. NoPanic-bind _ _ (read_rows-NoPanic fuel (pos + r.1)) λ rows. NoPanic-done _)
  ]

  -- A row that took bytes has a value for each column.
  wide :
      (row : List Value) (n : ℕ)
      → (n ≡ 0) ⊎ (length row ≡ length types)
      → (n == 0) ≡ false
      → length row ≡ length types
  wide row n w e = ground arith

  rows_wide :
      (fuel pos : ℕ)
      → Ensures
          (All (λ row. length row ≡ length types))
          (read_rows j hex_encode fuel bytes types metas pos)
  unfolding read_rows
  rows_wide zero pos = Ensures-done _ tt
  rows_wide (suc fuel) pos = elim (Bool-cases (ltb pos (length bytes))) [
    | inr out ↦ rw (out, read_rows) (Ensures-done _ tt)
    | inl inside ↦
        rw (inside, read_rows)
          (Ensures-bind _ _ λ rest.
            Ensures-then _ _ (read_row-length j hex_encode rest types metas) λ r w.
              elim (Bool-cases (r.1 == 0)) [
                | inl none_taken ↦ rw none_taken (Ensures-done _ tt)
                | inr taken ↦ rw taken (
                    Ensures-then _ _ (rows_wide fuel (pos + r.1))
                      λ rows ws. Ensures-done _ (wide r.0 r.1 w taken, ws))
              ])
  ]

  pairs_wide :
      (fuel pos : ℕ)
      → Ensures
          (All (λ (before, later). (length before ≡ length types) × (length later ≡ length types)))
          (read_row_pairs j hex_encode fuel bytes types metas pos)
  unfolding read_row_pairs
  pairs_wide zero pos = Ensures-done _ tt
  pairs_wide (suc fuel) pos = elim (Bool-cases (ltb pos (length bytes))) [
    | inr out ↦ rw (out, read_row_pairs) (Ensures-done _ tt)
    | inl inside ↦
        rw (inside, read_row_pairs)
          (Ensures-bind _ _ λ rest.
            Ensures-then _ _ (read_row-length j hex_encode rest types metas) λ r w.
              elim (Bool-cases (r.1 == 0)) [
                | inl none_taken ↦ rw none_taken (Ensures-done _ tt)
                | inr taken ↦ rw taken (
                    Ensures-bind _ _ λ rest2.
                      Ensures-then _ _ (read_row-length j hex_encode rest2 types metas) λ r2 w2.
                        elim (Bool-cases (r2.1 == 0)) [
                          | inl none_taken ↦ rw none_taken (Ensures-done _ tt)
                          | inr taken2 ↦ rw taken2 (
                              Ensures-then _ _ (pairs_wide fuel (pos + r.1 + r2.1)) λ rows ws.
                                Ensures-done _
                                  ((wide r.0 r.1 w taken, wide r2.0 r2.1 w2 taken2), ws))
                        ])
              ])
  ]

  -- Each row that the loop over the rows of a write or a delete returns has a value for each of the
  -- table's columns, and so have both rows of each pair that the loop over an update's rows returns.
  pub read_rows_widths :
      (fuel pos : ℕ)
      → Ensures
          (All (λ row. length row ≡ length types))
          (read_rows j hex_encode fuel bytes types metas pos)
        × Ensures
            (All
              (λ (before, later). (length before ≡ length types) × (length later ≡ length types)))
            (read_row_pairs j hex_encode fuel bytes types metas pos)
  read_rows_widths fuel pos = (rows_wide fuel pos, pairs_wide fuel pos)
