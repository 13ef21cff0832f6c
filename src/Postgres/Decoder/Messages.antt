-- ===== src/Postgres/Decoder/Messages.antt =====
-- decoder.rs, the messages and `PgOutputDecoder`.
use opencdc.Base.{ℕ, zero, suc, ◌+◌, List, [], ◌∷◌, ◌++◌}
use opencdc.Base.{
  leb, ◌==◌, ◌||◌, if◌then◌else◌, length, find?, Option, none, some, Bytes, Text, text,
}
use opencdc.Base.{Outcome, done, failed, ◌>>=◌}
use opencdc.Base.Int.{ℤ, signed, unsigned, i8_half, i16_half, i32_half}
use opencdc.Core.Error.{Error, invalid_message_format}
use opencdc.Wire.{index, slice_from}
use opencdc.Postgres.Decoder.Read.{read_i16_be, read_i32_be, read_i64_be, read_string}
use opencdc.Postgres.Decoder.Tuple.{TupleColumn, char_text, decode_tuple_data}

pub record RelationColumn : Type 0 where
  pub flags : ℤ
  pub name : Text
  pub type_oid : ℕ
  pub type_modifier : ℤ

pub record RelationMessage : Type 0 where
  pub oid : ℕ
  pub schema : Text
  pub name : Text
  pub columns : List RelationColumn

pub record BeginMessage : Type 0 where
  pub lsn : ℤ
  pub timestamp : ℤ
  pub xid : ℕ

pub record CommitMessage : Type 0 where
  pub flags : ℤ
  pub lsn : ℤ
  pub end_lsn : ℤ
  pub timestamp : ℤ

pub record InsertMessage : Type 0 where
  pub relation_oid : ℕ
  pub new_tuple : List TupleColumn

pub record DeleteMessage : Type 0 where
  pub relation_oid : ℕ
  pub old_tuple : List TupleColumn

pub record UpdateMessage : Type 0 where
  pub relation_oid : ℕ
  pub old_tuple : Option (List TupleColumn)
  pub new_tuple : List TupleColumn

pub record TruncateMessage : Type 0 where
  pub relation_oids : List ℕ
  pub options : ℤ

pub data PgOutputMessage : Type 0 where
  begin : BeginMessage → PgOutputMessage
  commit : CommitMessage → PgOutputMessage
  relation : RelationMessage → PgOutputMessage
  insert : InsertMessage → PgOutputMessage
  update : UpdateMessage → PgOutputMessage
  delete : DeleteMessage → PgOutputMessage
  truncate : TruncateMessage → PgOutputMessage

pub record PgOutputDecoder : Type 0 where
  pub relations : List RelationMessage

abbrev pub new : PgOutputDecoder
new = record { relations = [] }

-- The first relation of that oid.
unfoldable pub get_relation : PgOutputDecoder → ℕ → Option RelationMessage
get_relation d oid = find? (λ r. r.oid == oid) d.relations

unfoldable pub decode_begin : Bytes → Outcome Error (BeginMessage × ℕ)
decode_begin bytes = do
  (lsn, offset) ← read_i64_be bytes 0
  (timestamp, offset) ← read_i64_be bytes offset
  (xid, offset) ← read_i32_be bytes offset
  done (record { lsn = lsn; timestamp = timestamp; xid = unsigned i32_half xid }, offset)

unfoldable pub decode_commit : Bytes → Outcome Error (CommitMessage × ℕ)
decode_commit bytes = do
  flags ← index bytes 0
  (lsn, offset) ← read_i64_be bytes 1
  (end_lsn, offset) ← read_i64_be bytes offset
  (timestamp, offset) ← read_i64_be bytes offset
  done (
    record { flags = signed i8_half flags; lsn = lsn; end_lsn = end_lsn; timestamp = timestamp },
    offset,
  )

unfoldable pub decode_relation_columns : ℕ → Bytes → ℕ → Outcome Error (List RelationColumn × ℕ)
decode_relation_columns zero bytes offset = done ([], offset)
decode_relation_columns (suc count) bytes offset = do
  flags ← index bytes offset
  (col_name, offset) ← read_string bytes (offset + 1)
  (type_oid, offset) ← read_i32_be bytes offset
  (type_modifier, offset) ← read_i32_be bytes offset
  (columns, offset) ← decode_relation_columns count bytes offset
  let column : RelationColumn = record {
    flags = signed i8_half flags;
    name = col_name;
    type_oid = unsigned i32_half type_oid;
    type_modifier = type_modifier;
  }
  done (column ∷ columns, offset)

unfoldable pub decode_relation : Bytes → Outcome Error (RelationMessage × ℕ)
decode_relation bytes = do
  (oid, offset) ← read_i32_be bytes 0
  (schema, offset) ← read_string bytes offset
  (name, offset) ← read_string bytes offset
  (_, offset) ← read_i16_be bytes offset
  (col_count, offset) ← read_i16_be bytes offset
  (columns, offset) ← decode_relation_columns (unsigned i16_half col_count) bytes offset
  done (
    record { oid = unsigned i32_half oid; schema = schema; name = name; columns = columns },
    offset,
  )

abbrev invalid : {A : Type 0} → Text → Outcome Error A
invalid message = failed (invalid_message_format message)

-- `decode_tuple_data(&data[offset..])?` with `offset += consumed`.
unfoldable pub tuple_at : Bytes → ℕ → Outcome Error (List TupleColumn × ℕ)
tuple_at bytes offset = do
  rest ← slice_from bytes offset
  (tuple, consumed) ← decode_tuple_data rest
  done (tuple, offset + consumed)

unfoldable pub decode_insert : Bytes → Outcome Error (InsertMessage × ℕ)
decode_insert bytes = do
  (relation_oid, offset) ← read_i32_be bytes 0
  if leb (length bytes) offset then invalid (text "truncated insert message") else do
    tuple_type ← index bytes offset
    if tuple_type == b'N'
        then (do
          (new_tuple, offset) ← tuple_at bytes (offset + 1)
          done (
            record { relation_oid = unsigned i32_half relation_oid; new_tuple = new_tuple },
            offset,
          ))
        else invalid
            (text "expected 'N' tuple type in insert, got '" ++ char_text tuple_type ++ text "'")

-- The arms 'K' and 'O' of `decode_update`, which differ in the letter that their messages name.
unfoldable pub decode_old_and_new :
    ℕ → Bytes → ℕ → Outcome Error (Option (List TupleColumn) × List TupleColumn × ℕ)
decode_old_and_new letter bytes offset = do
  (old_tuple, offset) ← tuple_at bytes offset
  if leb (length bytes) offset
      then invalid (text "truncated update: expected 'N' after '" ++ char_text letter ++ text "'")
      else do
        tuple_type ← index bytes offset
        if tuple_type == b'N'
            then (do
              (new_tuple, offset) ← tuple_at bytes (offset + 1)
              done (some old_tuple, new_tuple, offset))
            else invalid (
                text "expected 'N' after '"
                ++ (char_text letter
                    ++ (text "' in update, got '" ++ (char_text tuple_type ++ text "'"))))

unfoldable pub decode_update_tuples :
    ℕ → Bytes → ℕ → Outcome Error (Option (List TupleColumn) × List TupleColumn × ℕ)
decode_update_tuples tuple_type bytes offset =
    if tuple_type == b'K' || tuple_type == b'O'
    then decode_old_and_new tuple_type bytes offset
    else if tuple_type == b'N'
    then (do (new_tuple, offset) ← tuple_at bytes offset; done (none, new_tuple, offset))
    else invalid (text "unknown tuple type '" ++ char_text tuple_type ++ text "' in update")

unfoldable pub decode_update : Bytes → Outcome Error (UpdateMessage × ℕ)
decode_update bytes = do
  (relation_oid, offset) ← read_i32_be bytes 0
  if leb (length bytes) offset then invalid (text "truncated update message") else do
    tuple_type ← index bytes offset
    (old_tuple, new_tuple, offset) ← decode_update_tuples tuple_type bytes (offset + 1)
    done (
      record {
        relation_oid = unsigned i32_half relation_oid;
        old_tuple = old_tuple;
        new_tuple = new_tuple;
      },
      offset,
    )

unfoldable pub decode_delete : Bytes → Outcome Error (DeleteMessage × ℕ)
decode_delete bytes = do
  (relation_oid, offset) ← read_i32_be bytes 0
  if leb (length bytes) offset then invalid (text "truncated delete message") else do
    tuple_type ← index bytes offset
    if tuple_type == b'K' || tuple_type == b'O'
        then (do
          (old_tuple, offset) ← tuple_at bytes (offset + 1)
          done (
            record { relation_oid = unsigned i32_half relation_oid; old_tuple = old_tuple },
            offset,
          ))
        else invalid (text "unknown tuple type '" ++ char_text tuple_type ++ text "' in delete")

unfoldable pub decode_oids : ℕ → Bytes → ℕ → Outcome Error (List ℕ × ℕ)
decode_oids zero bytes offset = done ([], offset)
decode_oids (suc count) bytes offset = do
  (oid, offset) ← read_i32_be bytes offset
  (oids, offset) ← decode_oids count bytes offset
  done (unsigned i32_half oid ∷ oids, offset)

unfoldable pub decode_truncate : Bytes → Outcome Error (TruncateMessage × ℕ)
decode_truncate bytes = do
  (num_rels, offset) ← read_i32_be bytes 0
  options ← index bytes offset
  (oids, offset) ← decode_oids (unsigned i32_half num_rels) bytes (offset + 1)
  done (record { relation_oids = oids; options = signed i8_half options }, offset)

-- The message, and the decoder after it. An error or a panic leaves the decoder as it was.
unfoldable pub decode :
    PgOutputDecoder → Bytes → Outcome Error (Option PgOutputMessage × PgOutputDecoder)
decode d [] = done (none, d)
decode d (msg_type ∷ rest) =
    if msg_type == b'B'
    then (do (msg, _) ← decode_begin rest; done (some (begin msg), d))
    else if msg_type == b'C'
    then (do (msg, _) ← decode_commit rest; done (some (commit msg), d))
    else if msg_type == b'R'
    then (do
      (msg, _) ← decode_relation rest
      done (some (relation msg), record d { relations = d.relations ++ (msg ∷ []) }))
    else if msg_type == b'I'
    then (do (msg, _) ← decode_insert rest; done (some (insert msg), d))
    else if msg_type == b'U'
    then (do (msg, _) ← decode_update rest; done (some (update msg), d))
    else if msg_type == b'D'
    then (do (msg, _) ← decode_delete rest; done (some (delete msg), d))
    else if msg_type == b'T'
    then (do (msg, _) ← decode_truncate rest; done (some (truncate msg), d))
    else done (none, d)
