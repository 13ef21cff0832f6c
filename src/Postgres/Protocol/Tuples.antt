-- ===== src/Postgres/Protocol/Tuples.antt =====
-- postgres/decoder.rs: `decode_tuple_data`, against the rows that the format writes.
use opencdc.Base.{ℕ, ◌+◌, ◌<◌, ◌≤◌, ◌≡◌, refl, ap, List, [], ◌∷◌, ◌++◌, ◌∙◌, map}
use opencdc.Base.{length, All, Bytes, arith, done, length-append, le→ltb, leb}
use opencdc.Base.{false}
use opencdc.Base.Int.{pos, unsigned, signed, i32_half, i64_half, unsigned-signed_i16}
use opencdc.Wire.{At, At-append, At-room, At-lt-length}
use opencdc.Wire.Slices.{index-At, slice-At, slice_from-At}
use opencdc.Postgres.Decoder.{
  decode_text_column, decode_column, decode_columns, decode_tuple_data, tuple_at,
}
use opencdc.Postgres.Protocol.Format.{
  Cell, null, unchanged, value, be_bytes4, cell_bytes, cells_bytes, tuple_bytes, cell_column,
  CellFits, TupleFits,
}
use opencdc.Postgres.Protocol.Numbers.{Reads, read_i16_be-be_bytes2, read_i32_be-be_bytes4}
use mathlib.Core.List.{append_assoc}

signed_small : (n : ℕ) → n < i32_half → signed i32_half n ≡ pos n
signed_small n h = ground arith

unsigned_small : (n : ℕ) → n < i32_half → unsigned i64_half (pos n) ≡ n
unsigned_small n h = ground arith

text_column-bytes :
    (v : Bytes)
    → length v < i32_half
    → Reads decode_text_column (be_bytes4 (length v) ++ v) (cell_column (value v))
unfolding decode_text_column
text_column-bytes v fits bytes i rest h =
    rw (read_i32_be-be_bytes4 (length v) bytes i (v ++ rest) h, signed_small (length v) fits)
      (rw (unsigned_small (length v) fits, le→ltb (length bytes) (i + 4 + length v) room)
        (rw
          (slice-At bytes (i + 4) v rest room
            (At-append bytes i (be_bytes4 (length v)) (v ++ rest) h))
          (ap (λ (j : ℕ). done (cell_column (value v), j)) (omega arith))))
  where
    room : i + 4 + length v ≤ length bytes
    room = omega (arith, At-room bytes i (be_bytes4 (length v) ++ v) rest (omega arith) h)

cell_step :
    (kind : ℕ) (bytes : Bytes) (i : ℕ) (rest : Bytes)
    → At bytes i (kind ∷ rest)
    → leb (length bytes) i ≡ false
cell_step kind bytes i rest h = ground (arith, At-lt-length bytes i kind rest h)

decode_column-cell : (c : Cell) → CellFits c → Reads decode_column (cell_bytes c) (cell_column c)
unfolding decode_column
decode_column-cell null f bytes i rest h =
    rw (cell_step _ bytes i rest h) (rw (index-At bytes i _ rest h))
decode_column-cell unchanged f bytes i rest h =
    rw (cell_step _ bytes i rest h) (rw (index-At bytes i _ rest h))
decode_column-cell (value v) f bytes i rest h = rw (cell_step _ bytes i _ h) (
    rw (index-At bytes i _ _ h) (
      text_column-bytes v f bytes (i + 1) rest (At-append bytes i (b't' ∷ []) _ h)
      ∙ ap (λ (j : ℕ). done (cell_column (value v), j)) (omega arith)))

decode_columns-cells :
    (cells : List Cell)
    → All CellFits cells
    → Reads (decode_columns (length cells)) (cells_bytes cells) (map cell_column cells)
unfolding decode_columns
decode_columns-cells [] f bytes i rest h = ap (λ (j : ℕ). done ([], j)) (omega arith)
decode_columns-cells (c ∷ cs) f bytes i rest h =
    rw (decode_column-cell c f.0 bytes i (cells_bytes cs ++ rest) split) (
      rw
        (decode_columns-cells cs f.1 bytes (i + length (cell_bytes c)) rest
          (At-append bytes i (cell_bytes c) (cells_bytes cs ++ rest) split))
        (ap (λ (j : ℕ). done (map cell_column (c ∷ cs), j))
          (omega (arith, length-append (cell_bytes c) (cells_bytes cs)))))
  where
    split : At bytes i (cell_bytes c ++ (cells_bytes cs ++ rest))
    split = h ∙ append_assoc (cell_bytes c) (cells_bytes cs) rest

-- A row of cells that fit the format is decoded to its columns, and the bytes that are taken are
-- those of the row, whatever follows it.
decode_tuple_data-tuple_bytes :
    (cells : List Cell) (rest : Bytes)
    → TupleFits cells
    → decode_tuple_data (tuple_bytes cells ++ rest)
      ≡ done (map cell_column cells, length (tuple_bytes cells))
unfolding decode_tuple_data
decode_tuple_data-tuple_bytes cells rest f =
    rw
      (
        read_i16_be-be_bytes2 (length cells) bytes 0 (cells_bytes cells ++ rest) refl,
        unsigned-signed_i16 (length cells) f.0,
      )
      (decode_columns-cells cells f.1 bytes 2 rest refl
        ∙ ap (λ (j : ℕ). done (map cell_column cells, j)) (omega arith))
  where
    bytes : Bytes
    bytes = tuple_bytes cells ++ rest

pub tuple_at-tuple_bytes :
    (cells : List Cell)
    → TupleFits cells
    → Reads tuple_at (tuple_bytes cells) (map cell_column cells)
unfolding tuple_at
tuple_at-tuple_bytes cells f bytes i rest h =
    rw
      (slice_from-At bytes i (tuple_bytes cells ++ rest)
        (omega (arith, At-room bytes i (tuple_bytes cells) rest (omega arith) h)) h)
      (rw (decode_tuple_data-tuple_bytes cells rest f))
