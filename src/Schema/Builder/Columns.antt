-- ===== src/Schema/Builder/Columns.antt =====
-- The columns that are added to an envelope.
use opencdc.Base.{
  ◌≡◌, refl, ap, ◌∙◌, Option, some, List, [], ◌∷◌, ◌++◌, append_assoc, append-nil, Text, text, same,
  sym,
}
use opencdc.Core.Json.{SerdeJson}
use opencdc.Schema.Types.{DebeziumField, DebeziumSchema, cons_field}
use opencdc.Schema.Fields.{
  list_of, push_field, optional, named, default_schema, string_field, int64_field, struct_field,
  new as new_field,
}
use opencdc.Schema.Builder.{
  new, add_field, column_into, with_column, new_envelope, source_fields, transaction_fields,
  namespace_of,
}

push-list_of :
    {V : Type 0} (fs : List (DebeziumField V)) (f : DebeziumField V)
    → push_field (list_of fs) f ≡ list_of (fs ++ (f ∷ []))
unfolding push_field list_of
push-list_of [] f = refl
push-list_of (g ∷ fs) f = ap (cons_field g) (push-list_of fs f)

module _ (j : SerdeJson) (connector catalog : Text) (schema : Option Text) (table : Text) where
  -- The envelope of a table with these columns, written out.
  abbrev table_name : Text
  table_name = namespace_of j connector catalog schema ++ (text "." ++ table)

  abbrev row_field : Text → List (DebeziumField j.Value) → DebeziumField j.Value
  row_field name columns = named table_name (optional (struct_field j name columns))

  abbrev pub envelope_of : List (DebeziumField j.Value) → DebeziumSchema j.Value
  envelope_of columns = record default_schema {
    fields = some (
        row_field (text "before") columns
        ∷ row_field (text "after") columns
        ∷ named (text "io.debezium.connector." ++ (connector ++ text ".Source"))
            (struct_field j (text "source") (source_fields j))
        ∷ string_field j (text "op")
        ∷ optional (int64_field j (text "ts_ms"))
        ∷ optional (struct_field j (text "transaction") (transaction_fields j))
        ∷ []);
    name = some (table_name ++ text ".Envelope");
    version = some 1;
  }

  -- The columns added one after the other.
  abbrev pub with_columns :
      List (DebeziumField j.Value) → DebeziumSchema j.Value → DebeziumSchema j.Value
  with_columns [] s = s
  with_columns (column ∷ columns) s = with_columns columns (with_column column s)

  with_column-envelope :
      (columns : List (DebeziumField j.Value)) (column : DebeziumField j.Value)
      → with_column column (envelope_of columns) ≡ envelope_of (columns ++ (column ∷ []))
  unfolding with_column column_into struct_field optional named string_field int64_field new_field
      same
  with_column-envelope columns column = rw (push-list_of columns column) refl

  with_columns-envelope :
      (columns more : List (DebeziumField j.Value))
      → with_columns more (envelope_of columns) ≡ envelope_of (columns ++ more)
  with_columns-envelope columns [] = ap envelope_of (sym (append-nil columns))
  with_columns-envelope columns (column ∷ more) = rw (with_column-envelope columns column) (
      with_columns-envelope (columns ++ (column ∷ [])) more
      ∙ ap envelope_of (append_assoc columns (column ∷ []) more))

  -- The envelope to which columns are added one after the other is the envelope with these columns in
  -- their order, in `before` and in `after` alike and in no other field.
  pub new_envelope-with_columns :
      (columns : List (DebeziumField j.Value))
      → with_columns columns (new_envelope j connector catalog schema table) ≡ envelope_of columns
  new_envelope-with_columns columns =
      ap (with_columns columns) start ∙ with_columns-envelope [] columns
    where
      start : new_envelope j connector catalog schema table ≡ envelope_of []
      start = unfold new_envelope add_field new in refl
