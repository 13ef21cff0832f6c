-- ===== src/Postgres/Protocol/Format.antt =====
-- The encoder. The packet builders in the tests of decoder.rs write the same bytes.
use opencdc.Base.{ℕ, ◌/◌, ◌%◌, ◌^◌, ◌<◌, List, [], ◌∷◌, ◌++◌, length, All}
use opencdc.Base.{Bytes}
use opencdc.Base.Int.{ℤ, unsigned, i8_half, i16_half, i32_half, i64_half}
use opencdc.Postgres.Decoder.{TupleColumn, null_column, toast_column, text_column}

abbrev pub be_bytes2 : ℕ → Bytes
be_bytes2 v = v / 2 ^ 8 ∷ v % 2 ^ 8 ∷ []

abbrev pub be_bytes4 : ℕ → Bytes
be_bytes4 v = v / 2 ^ 24 ∷ v / 2 ^ 16 % 2 ^ 8 ∷ v / 2 ^ 8 % 2 ^ 8 ∷ v % 2 ^ 8 ∷ []

abbrev pub be_bytes8 : ℕ → Bytes
be_bytes8 v = be_bytes4 (v / 2 ^ 32) ++ be_bytes4 (v % 2 ^ 32)

abbrev pub int8_bytes : ℤ → Bytes
int8_bytes z = unsigned i8_half z ∷ []

abbrev pub int16_bytes : ℤ → Bytes
int16_bytes z = be_bytes2 (unsigned i16_half z)

abbrev pub int32_bytes : ℤ → Bytes
int32_bytes z = be_bytes4 (unsigned i32_half z)

abbrev pub int64_bytes : ℤ → Bytes
int64_bytes z = be_bytes8 (unsigned i64_half z)

abbrev pub c_string : Bytes → Bytes
c_string s = s ++ (0 ∷ [])

-- One column of a row: SQL null, an unchanged TOAST value, or a value as text.
pub data Cell : Type 0 where
  null unchanged : Cell
  value : Bytes → Cell

abbrev pub cell_bytes : Cell → Bytes
cell_bytes null = b'n' ∷ []
cell_bytes unchanged = b'u' ∷ []
cell_bytes (value v) = b't' ∷ be_bytes4 (length v) ++ v

abbrev pub cells_bytes : List Cell → Bytes
cells_bytes [] = []
cells_bytes (c ∷ cs) = cell_bytes c ++ cells_bytes cs

abbrev pub tuple_bytes : List Cell → Bytes
tuple_bytes cells = be_bytes2 (length cells) ++ cells_bytes cells

abbrev pub cell_column : Cell → TupleColumn
cell_column null = null_column
cell_column unchanged = toast_column
cell_column (value v) = text_column v

abbrev pub CellFits : Cell → Type 0
CellFits (value v) = length v < i32_half
CellFits _ = Unit

abbrev pub TupleFits : List Cell → Type 0
TupleFits cells = (length cells < 2 ^ 16) × All CellFits cells
