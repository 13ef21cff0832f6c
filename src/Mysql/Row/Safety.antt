-- ===== src/Mysql/Row/Safety.antt =====
-- mysql/binlog.rs, `read_row`: out-of-range reads, and the width of a row.
use opencdc.Base.{
  ℕ, suc, ◌+◌, ◌<◌, ◌≤◌, ◌≡◌, refl, length, get_or, Bool, Bytes, Text, List, [], ◌∷◌, arith, true,
  false,
}
use opencdc.Base.{◌==◌, ◌||◌, ◌&&◌, leb, ltb, inl, inr, ◌⊎◌, ap}
use opencdc.Base.{
  NoPanic, NoPanic-done, NoPanic-bind, NoPanic-if, NoPanic-then, Ensures, Ensures-done,
  Ensures-bind, Ensures-then, Ensures-if, Ensures-weaken,
}
use opencdc.Core.Json.{SerdeJson}
use opencdc.Wire.Bounds.{index-NoPanic, slice-NoPanic, slice_from-NoPanic, slice-length}
use opencdc.Mysql.Packed.{bytes_for}
use opencdc.Mysql.Column.{column_data_length}
use opencdc.Mysql.Column.Safety.{le_u16-NoPanic, decode_binlog_value-NoPanic}
use opencdc.Mysql.Row.{
  is_string, is_blob, blob_prefix, blob_size, read_blob, read_variable, read_column, read_columns,
  read_row,
}

blob_size-NoPanic :
    (t : ℕ) (bytes : Bytes) (pos : ℕ)
    → pos + blob_prefix t ≤ length bytes
    → NoPanic (blob_size t bytes pos)
unfolding blob_size
blob_size-NoPanic t bytes pos h =
    NoPanic-if (t == 249) _ _ (λ e. index-NoPanic bytes pos (ground arith))
      λ e1.
        NoPanic-if (t == 252) _ _ (λ e. le_u16-NoPanic bytes pos (ground arith))
          λ e2.
            NoPanic-if (t == 250) _ _
              (λ e. NoPanic-bind _ _ (le_u16-NoPanic bytes pos (ground arith)) λ low.
                NoPanic-bind _ _ (index-NoPanic bytes (pos + 2) (ground arith))
                  λ high. NoPanic-done _)
              λ e3. NoPanic-done _

module _ (j : SerdeJson) (hex_encode : Bytes → Text) where
  read_blob-NoPanic : (bytes : Bytes) (pos t : ℕ) → NoPanic (read_blob j hex_encode bytes pos t)
  unfolding read_blob
  read_blob-NoPanic bytes pos t =
      NoPanic-if (leb (pos + blob_prefix t) (length bytes)) _ _
        (λ e. NoPanic-bind _ _ (blob_size-NoPanic t bytes pos (within _ _ e)) λ size.
          NoPanic-if (leb (pos + blob_prefix t + size) (length bytes)) _ _
            (λ f.
              NoPanic-bind _ _
                (slice-NoPanic bytes (pos + blob_prefix t) (pos + blob_prefix t + size)
                  (omega arith) (within _ _ f))
                λ run. NoPanic-done _)
            (λ f. NoPanic-done _))
        (λ e. NoPanic-done _)
    where
      within : (a b : ℕ) → leb a b ≡ true → a ≤ b
      within a b l = ground arith

  read_variable-NoPanic :
      (bytes : Bytes) (pos t : ℕ)
      → pos < length bytes
      → NoPanic (read_variable j hex_encode bytes pos t)
  unfolding read_variable
  read_variable-NoPanic bytes pos t h =
      NoPanic-if (is_string t) _ _
        (λ e. NoPanic-bind _ _ (slice_from-NoPanic bytes pos (omega arith)) λ rest. NoPanic-done _)
        λ e1. NoPanic-if (is_blob t) _ _ (λ e. read_blob-NoPanic bytes pos t) λ e2. NoPanic-done _

  read_column-NoPanic :
      (bytes : Bytes) (pos t m : ℕ) → NoPanic (read_column j hex_encode bytes pos t m)
  unfolding read_column
  read_column-NoPanic bytes pos t m =
      NoPanic-if (ltb 0 w && leb (pos + w) (length bytes)) _ _
        (λ e.
          NoPanic-then _ _ (slice-NoPanic bytes pos (pos + w) (omega arith) (fits w e))
            (slice-length bytes pos (pos + w))
            λ run l.
              NoPanic-bind _ _
                (decode_binlog_value-NoPanic j hex_encode run t m (omega arith)
                  (wide w (length run) e (omega arith)))
                λ v. NoPanic-done _)
        λ e1.
          NoPanic-if (w == 0 && ltb pos (length bytes)) _ _
            (λ e.
              NoPanic-bind _ _ (read_variable-NoPanic bytes pos t (ground arith))
                λ v. NoPanic-done _)
            λ e2. NoPanic-done _
    where
      w : ℕ
      w = column_data_length t m

      fits : (n : ℕ) → (ltb 0 n && leb (pos + n) (length bytes)) ≡ true → pos + n ≤ length bytes
      fits n e = ground arith

      wide : (n k : ℕ) → (ltb 0 n && leb (pos + n) (length bytes)) ≡ true → k ≡ n → 0 < k
      wide n k e l = ground arith

  read_columns-NoPanic :
      (bytes : Bytes) (nulls : List Bool) (metas types : List ℕ) (i pos : ℕ)
      → NoPanic (read_columns j hex_encode bytes nulls metas types i pos)
  unfolding read_columns
  read_columns-NoPanic bytes nulls metas [] i pos = NoPanic-done _
  read_columns-NoPanic bytes nulls metas (t ∷ types) i pos =
      NoPanic-bind _ _
        (NoPanic-if (get_or nulls i false) _ _ (λ e. NoPanic-done _)
          (λ e. read_column-NoPanic bytes pos t (get_or metas i 0)))
        λ r.
          NoPanic-bind _ _ (read_columns-NoPanic bytes nulls metas types (i + 1) r.1)
            λ s. NoPanic-done _

  -- On any bytes, for any column types and metadata, `read_row` reads nothing out of range.
  pub read_row-NoPanic :
      (bytes : Bytes) (types metas : List ℕ) → NoPanic (read_row j hex_encode bytes types metas)
  unfolding read_row
  read_row-NoPanic bytes types metas =
      NoPanic-if (length bytes == 0 || length types == 0) _ _ (λ e. NoPanic-done _)
        λ e1.
          NoPanic-if (ltb (length bytes) (bytes_for (length types))) _ _ (λ e. NoPanic-done _)
            λ e2.
              NoPanic-bind _ _
                (slice-NoPanic bytes 0 (bytes_for (length types)) (omega arith) (ground arith))
                λ run. read_columns-NoPanic bytes _ metas types 0 _

  read_columns-length :
      (bytes : Bytes) (nulls : List Bool) (metas types : List ℕ) (i pos : ℕ)
      → Ensures
          (λ r. length r.0 ≡ length types)
          (read_columns j hex_encode bytes nulls metas types i pos)
  unfolding read_columns
  read_columns-length bytes nulls metas [] i pos = Ensures-done _ refl
  read_columns-length bytes nulls metas (t ∷ types) i pos = Ensures-bind _ _ λ r.
      Ensures-then _ _ (read_columns-length bytes nulls metas types (i + 1) r.1)
        λ s l. Ensures-done _ (ap suc l)

  -- A row that is read has a value for each column; otherwise the count is 0.
  pub read_row-length :
      (bytes : Bytes) (types metas : List ℕ)
      → Ensures
          (λ r. (r.1 ≡ 0) ⊎ (length r.0 ≡ length types))
          (read_row j hex_encode bytes types metas)
  unfolding read_row
  read_row-length bytes types metas =
      Ensures-if (length bytes == 0 || length types == 0) _ _ (Ensures-done _ (inl refl)) (
        Ensures-if (ltb (length bytes) (bytes_for (length types))) _ _ (Ensures-done _ (inl refl)) (
          Ensures-bind _ _
            λ run. Ensures-weaken _ (λ r l. inr l) (read_columns-length bytes _ metas types 0 _)))
