-- ===== src/Postgres/Protocol/Relations.antt =====
-- postgres/decoder.rs: relation messages and lists of oids, against the format.
use opencdc.Base.{ℕ, ◌+◌, ◌<◌, ◌^◌, ◌≡◌, refl, ap, List, [], ◌∷◌, ◌++◌, ◌∙◌, map}
use opencdc.Base.{length, All, Bytes, arith, done, length-append}
use opencdc.Base.Int.{ℤ, unsigned, i8_half, i16_half, unsigned-signed_i16}
use opencdc.Base.Int.{unsigned-signed_i32, signed-unsigned_i8, InRange}
use opencdc.Wire.{At, At-append}
use opencdc.Wire.Slices.{index-At}
use opencdc.Postgres.Decoder.{decode_relation_columns, decode_relation, decode_oids}
use opencdc.Postgres.Protocol.Format.{
  be_bytes2, be_bytes4, int8_bytes, int16_bytes, int32_bytes, c_string,
}
use opencdc.Postgres.Protocol.Messages.{
  Column, column_bytes, columns_bytes, oids_bytes, relation_bytes, column_meaning, relation_meaning,
  NoZero, ColumnFits,
}
use opencdc.Postgres.Protocol.Numbers.{
  Reads, read_i16_be-be_bytes2, read_i32_be-be_bytes4, read_i32_be-int32_bytes,
  read_i16_be-int16_bytes, read_string-c_string,
}
use mathlib.Core.List.{append_assoc}

pub decode_oids-bytes :
    (oids : List ℕ)
    → All (λ o. o < 2 ^ 32) oids
    → Reads (decode_oids (length oids)) (oids_bytes oids) oids
unfolding decode_oids
decode_oids-bytes [] f bytes i rest h = ap (λ (j : ℕ). done ([], j)) (omega arith)
decode_oids-bytes (o ∷ os) f bytes i rest h =
    rw (read_i32_be-be_bytes4 o bytes i (oids_bytes os ++ rest) h, unsigned-signed_i32 o f.0)
      (rw
        (decode_oids-bytes os f.1 bytes (i + 4) rest
          (At-append bytes i (be_bytes4 o) (oids_bytes os ++ rest) h))
        (ap (λ (j : ℕ). done (o ∷ os, j)) (omega arith)))

column_tail : Column → Bytes
column_tail c = c_string c.name ++ (be_bytes4 c.type_oid ++ int32_bytes c.type_modifier)

columns_step :
    (c : Column) (more : Bytes)
    → column_bytes c ++ more
      ≡ int8_bytes c.flags
        ++ (c_string c.name ++ (be_bytes4 c.type_oid ++ (int32_bytes c.type_modifier ++ more)))
columns_step c more =
    ap (λ t. unsigned i8_half c.flags ∷ t)
      (append_assoc (c_string c.name) (be_bytes4 c.type_oid ++ int32_bytes c.type_modifier) more)

decode_columns-bytes :
    (columns : List Column)
    → All ColumnFits columns
    → Reads
        (decode_relation_columns (length columns))
        (columns_bytes columns)
        (map column_meaning columns)
unfolding decode_relation_columns
decode_columns-bytes [] f bytes i rest h = ap (λ (j : ℕ). done ([], j)) (omega arith)
decode_columns-bytes (c ∷ cs) f bytes i rest h =
    rw (index-At bytes i (unsigned i8_half c.flags) _ at0) (
      rw (read_string-c_string c.name f.0.1 bytes (i + 1) _ at1) (
        rw
          (
            read_i32_be-be_bytes4 c.type_oid bytes (i + 1 + length (c_string c.name)) _ at2,
            unsigned-signed_i32 c.type_oid f.0.2,
          )
          (rw
            (read_i32_be-int32_bytes c.type_modifier f.0.3 bytes
              (i + 1 + length (c_string c.name) + 4) _ at3)
            (rw
              (
                decode_columns-bytes cs f.1 bytes (i + 1 + length (c_string c.name) + 4 + 4) rest
                    at4,
                signed-unsigned_i8 c.flags f.0.0,
              )
              (ap (λ (j : ℕ). done (map column_meaning (c ∷ cs), j))
                (omega (
                  arith,
                  length-append (column_bytes c) (columns_bytes cs),
                  length-append (c_string c.name)
                      (be_bytes4 c.type_oid ++ int32_bytes c.type_modifier),
                )))))))
  where
    more : Bytes
    more = columns_bytes cs ++ rest

    at0 : At bytes i (
        int8_bytes c.flags
        ++ (c_string c.name ++ (be_bytes4 c.type_oid ++ (int32_bytes c.type_modifier ++ more))))
    at0 = h ∙ append_assoc (column_bytes c) (columns_bytes cs) rest ∙ columns_step c more

    at1 :
        At bytes
          (i + 1)
          (c_string c.name ++ (be_bytes4 c.type_oid ++ (int32_bytes c.type_modifier ++ more)))
    at1 = At-append bytes i (int8_bytes c.flags) _ at0

    at2 :
        At bytes
          (i + 1 + length (c_string c.name))
          (be_bytes4 c.type_oid ++ (int32_bytes c.type_modifier ++ more))
    at2 = At-append bytes (i + 1) (c_string c.name) _ at1

    at3 : At bytes (i + 1 + length (c_string c.name) + 4) (int32_bytes c.type_modifier ++ more)
    at3 = At-append bytes _ (be_bytes4 c.type_oid) _ at2

    at4 : At bytes (i + 1 + length (c_string c.name) + 4 + 4) more
    at4 = At-append bytes _ (int32_bytes c.type_modifier) _ at3

pub decode_relation-bytes :
    (oid : ℕ) (schema name : Bytes) (identity : ℤ) (columns : List Column) (rest : Bytes)
    → oid < 2 ^ 32
    → NoZero schema
    → NoZero name
    → InRange i16_half identity
    → length columns < 2 ^ 16
    → All ColumnFits columns
    → (n : ℕ) × (decode_relation (relation_bytes oid schema name identity columns ++ rest)
        ≡ done (relation_meaning oid schema name columns, n))
unfolding decode_relation
decode_relation-bytes oid schema name identity columns rest ho hs hn hi hc hf = (
  4 + length (c_string schema) + length (c_string name) + 2 + 2 + length (columns_bytes columns),
  rw (read_i32_be-be_bytes4 oid bytes 0 _ refl, unsigned-signed_i32 oid ho)
      (rw (read_string-c_string schema hs bytes 4 _ at1) (
        rw (read_string-c_string name hn bytes _ _ at2) (
          rw (read_i16_be-int16_bytes identity hi bytes _ _ at3) (
            rw
              (
                read_i16_be-be_bytes2 (length columns) bytes _ _ at4,
                unsigned-signed_i16 (length columns) hc,
              )
              (rw (decode_columns-bytes columns hf bytes _ rest at5)))))),
)
  where
    bytes : Bytes
    bytes = relation_bytes oid schema name identity columns ++ rest

    tail5 : Bytes
    tail5 = columns_bytes columns ++ rest

    tail3 : Bytes
    tail3 = int16_bytes identity ++ (be_bytes2 (length columns) ++ tail5)

    at1 : At bytes 4 (c_string schema ++ (c_string name ++ tail3))
    at1 =
        append_assoc (c_string schema)
          (c_string name
            ++ (int16_bytes identity ++ (be_bytes2 (length columns) ++ columns_bytes columns)))
          rest
        ∙ ap (λ t. c_string schema ++ t)
            (append_assoc (c_string name)
              (int16_bytes identity ++ (be_bytes2 (length columns) ++ columns_bytes columns)) rest)

    at2 : At bytes (4 + length (c_string schema)) (c_string name ++ tail3)
    at2 = At-append bytes 4 (c_string schema) _ at1

    at3 : At bytes (4 + length (c_string schema) + length (c_string name)) tail3
    at3 = At-append bytes _ (c_string name) _ at2

    at4 :
        At bytes
          (4 + length (c_string schema) + length (c_string name) + 2)
          (be_bytes2 (length columns) ++ tail5)
    at4 = At-append bytes _ (int16_bytes identity) _ at3

    at5 : At bytes (4 + length (c_string schema) + length (c_string name) + 2 + 2) tail5
    at5 = At-append bytes _ (be_bytes2 (length columns)) _ at4
