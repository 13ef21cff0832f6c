-- ===== src/Postgres/Protocol/Messages.antt =====
-- The format's messages: what the server writes for each, and the decoder's reading of it.
use opencdc.Base.{ℕ, ◌^◌, ◌<◌, List, [], ◌∷◌, ◌++◌, map, length, All}
use opencdc.Base.{none, some, Bytes}
use opencdc.Base.Int.{ℤ, InRange, i8_half, i16_half, i32_half, i64_half}
use opencdc.Wire.Utf8.{from_utf8_lossy}
use opencdc.Postgres.Decoder.{
  PgOutputMessage, PgOutputDecoder, RelationColumn, RelationMessage, begin, commit, relation,
  insert, update, delete, truncate,
}
use opencdc.Postgres.Protocol.Format.{
  Cell, TupleFits, be_bytes2, be_bytes4, int8_bytes, int16_bytes, int32_bytes, int64_bytes,
  c_string, tuple_bytes, cell_column,
}

-- One column of a relation message; the name is without its terminator.
pub record Column : Type 0 where
  pub flags : ℤ
  pub name : Bytes
  pub type_oid : ℕ
  pub type_modifier : ℤ

-- Which old row an update or a delete carries: the key's columns, or all.
pub data Old : Type 0 where
  key full : Old

pub data WireMessage : Type 0 where
  begin_of : ℤ → ℤ → ℕ → WireMessage
  commit_of : ℤ → ℤ → ℤ → ℤ → WireMessage
  relation_of : ℕ → Bytes → Bytes → ℤ → List Column → WireMessage
  insert_of : ℕ → List Cell → WireMessage
  update_of : ℕ → List Cell → WireMessage
  update_old_of : Old → ℕ → List Cell → List Cell → WireMessage
  delete_of : Old → ℕ → List Cell → WireMessage
  truncate_of : ℤ → List ℕ → WireMessage

abbrev pub old_letter : Old → ℕ
old_letter key = b'K'
old_letter full = b'O'

abbrev pub column_bytes : Column → Bytes
column_bytes c =
    int8_bytes c.flags ++ (c_string c.name ++ (be_bytes4 c.type_oid ++ int32_bytes c.type_modifier))

abbrev pub columns_bytes : List Column → Bytes
columns_bytes [] = []
columns_bytes (c ∷ cs) = column_bytes c ++ columns_bytes cs

abbrev pub oids_bytes : List ℕ → Bytes
oids_bytes [] = []
oids_bytes (o ∷ os) = be_bytes4 o ++ oids_bytes os

-- The bytes behind the letter of the message.
abbrev pub begin_bytes : ℤ → ℤ → ℕ → Bytes
begin_bytes lsn ts xid = int64_bytes lsn ++ (int64_bytes ts ++ be_bytes4 xid)

abbrev pub relation_bytes : ℕ → Bytes → Bytes → ℤ → List Column → Bytes
relation_bytes oid schema name identity columns =
    be_bytes4 oid
    ++ (c_string schema
        ++ (c_string name
            ++ (int16_bytes identity ++ (be_bytes2 (length columns) ++ columns_bytes columns))))

abbrev pub encode : WireMessage → Bytes
encode (begin_of lsn ts xid) = b'B' ∷ begin_bytes lsn ts xid
encode (commit_of flags lsn end_lsn ts) =
    b'C' ∷ (int8_bytes flags ++ (int64_bytes lsn ++ (int64_bytes end_lsn ++ int64_bytes ts)))
encode (relation_of oid schema name identity columns) =
    b'R' ∷ relation_bytes oid schema name identity columns
encode (insert_of oid row) = b'I' ∷ (be_bytes4 oid ++ (b'N' ∷ tuple_bytes row))
encode (update_of oid row) = b'U' ∷ (be_bytes4 oid ++ (b'N' ∷ tuple_bytes row))
encode (update_old_of o oid old row) =
    b'U' ∷ (be_bytes4 oid ++ (old_letter o ∷ (tuple_bytes old ++ (b'N' ∷ tuple_bytes row))))
encode (delete_of o oid old) = b'D' ∷ (be_bytes4 oid ++ (old_letter o ∷ tuple_bytes old))
encode (truncate_of options oids) =
    b'T' ∷ (be_bytes4 (length oids) ++ (int8_bytes options ++ oids_bytes oids))

abbrev pub column_meaning : Column → RelationColumn
column_meaning c = record {
  flags = c.flags;
  name = from_utf8_lossy c.name;
  type_oid = c.type_oid;
  type_modifier = c.type_modifier;
}

abbrev pub relation_meaning : ℕ → Bytes → Bytes → List Column → RelationMessage
relation_meaning oid schema name columns = record {
  oid = oid;
  schema = from_utf8_lossy schema;
  name = from_utf8_lossy name;
  columns = map column_meaning columns;
}

-- What the message says.
abbrev pub meaning : WireMessage → PgOutputMessage
meaning (begin_of lsn ts xid) = begin (record { lsn = lsn; timestamp = ts; xid = xid })
meaning (commit_of flags lsn end_lsn ts) =
    commit (record { flags = flags; lsn = lsn; end_lsn = end_lsn; timestamp = ts })
meaning (relation_of oid schema name identity columns) =
    relation (relation_meaning oid schema name columns)
meaning (insert_of oid row) =
    insert (record { relation_oid = oid; new_tuple = map cell_column row })
meaning (update_of oid row) =
    update (record { relation_oid = oid; old_tuple = none; new_tuple = map cell_column row })
meaning (update_old_of o oid old row) = update (record {
  relation_oid = oid;
  old_tuple = some (map cell_column old);
  new_tuple = map cell_column row;
})
meaning (delete_of o oid old) =
    delete (record { relation_oid = oid; old_tuple = map cell_column old })
meaning (truncate_of options oids) = truncate (record { relation_oids = oids; options = options })

-- The decoder remembers relations, the latest last.
abbrev pub remember : PgOutputDecoder → WireMessage → PgOutputDecoder
remember d (relation_of oid schema name identity columns) = record d {
  relations = d.relations ++ (relation_meaning oid schema name columns ∷ []);
}
remember d _ = d

abbrev pub NoZero : Bytes → Type 0
NoZero s = All (λ b. 0 < b) s

abbrev pub ColumnFits : Column → Type 0
ColumnFits c =
    InRange i8_half c.flags
    × NoZero c.name
    × (c.type_oid < 2 ^ 32)
    × InRange i32_half c.type_modifier

-- The fields are in the range of their types, and strings hold no zero byte.
abbrev pub Fits : WireMessage → Type 0
Fits (begin_of lsn ts xid) = InRange i64_half lsn × InRange i64_half ts × (xid < 2 ^ 32)
Fits (commit_of flags lsn end_lsn ts) =
    InRange i8_half flags × InRange i64_half lsn × InRange i64_half end_lsn × InRange i64_half ts
Fits (relation_of oid schema name identity columns) =
    (oid < 2 ^ 32)
    × NoZero schema
    × NoZero name
    × InRange i16_half identity
    × (length columns < 2 ^ 16)
    × All ColumnFits columns
Fits (insert_of oid row) = (oid < 2 ^ 32) × TupleFits row
Fits (update_of oid row) = (oid < 2 ^ 32) × TupleFits row
Fits (update_old_of o oid old row) = (oid < 2 ^ 32) × TupleFits old × TupleFits row
Fits (delete_of o oid old) = (oid < 2 ^ 32) × TupleFits old
Fits (truncate_of options oids) =
    InRange i8_half options × (length oids < 2 ^ 32) × All (λ o. o < 2 ^ 32) oids
