-- ===== src/Postgres/Protocol/RoundTrip.antt =====
-- postgres/decoder.rs: the decoder against the format, message by message.
use opencdc.Base.{ℕ, ◌+◌, ◌<◌, ◌^◌, ◌≡◌, refl, List, [], ◌∷◌, ◌++◌, map}
use opencdc.Base.{length, Bytes, arith, done, some, none, leb, false}
use opencdc.Base.Int.{ℤ, unsigned, i8_half, unsigned-signed_i32, signed-unsigned_i8}
use opencdc.Base.Int.{InRange, i64_half}
use opencdc.Wire.{At, At-append, At-lt-length}
use opencdc.Wire.Slices.{index-At}
use opencdc.Postgres.Decoder.{
  PgOutputDecoder, decode, decode_begin, decode_commit, decode_insert, decode_update,
  decode_update_tuples, decode_old_and_new, decode_delete, decode_truncate,
}
use opencdc.Postgres.Protocol.Format.{
  Cell, TupleFits, be_bytes4, int8_bytes, int64_bytes, tuple_bytes, cell_column,
}
use opencdc.Postgres.Protocol.Messages.{
  WireMessage, begin_of, commit_of, relation_of, insert_of, update_of, update_old_of, delete_of,
  truncate_of, Old, key, full, old_letter, oids_bytes, begin_bytes, encode, meaning, remember, Fits,
}
use opencdc.Postgres.Protocol.Numbers.{read_i32_be-be_bytes4, read_i64_be-int64_bytes}
use opencdc.Postgres.Protocol.Tuples.{tuple_at-tuple_bytes}
use opencdc.Postgres.Protocol.Relations.{decode_oids-bytes, decode_relation-bytes}
use mathlib.Core.List.{append_assoc}

decode_begin-bytes :
    (lsn ts : ℤ) (xid : ℕ) (rest : Bytes)
    → InRange i64_half lsn
    → InRange i64_half ts
    → xid < 2 ^ 32
    → decode_begin (begin_bytes lsn ts xid ++ rest)
      ≡ done (record { lsn = lsn; timestamp = ts; xid = xid }, 20)
unfolding decode_begin
decode_begin-bytes lsn ts xid rest hl ht hx =
    let bytes = begin_bytes lsn ts xid ++ rest in
    rw (read_i64_be-int64_bytes lsn hl bytes 0 _ refl) (
      rw (read_i64_be-int64_bytes ts ht bytes 8 (be_bytes4 xid ++ rest) refl)
        (rw (read_i32_be-be_bytes4 xid bytes 16 rest refl, unsigned-signed_i32 xid hx)))

abbrev commit_bytes : ℤ → ℤ → ℤ → ℤ → Bytes
commit_bytes flags lsn end_lsn ts =
    int8_bytes flags ++ (int64_bytes lsn ++ (int64_bytes end_lsn ++ int64_bytes ts))

decode_commit-bytes :
    (flags lsn end_lsn ts : ℤ) (rest : Bytes)
    → Fits (commit_of flags lsn end_lsn ts)
    → decode_commit (commit_bytes flags lsn end_lsn ts ++ rest)
      ≡ done (record { flags = flags; lsn = lsn; end_lsn = end_lsn; timestamp = ts }, 25)
unfolding decode_commit
decode_commit-bytes flags lsn end_lsn ts rest f =
    let bytes = commit_bytes flags lsn end_lsn ts ++ rest in
    rw (index-At bytes 0 _ _ refl) (
      rw (read_i64_be-int64_bytes lsn f.1 bytes 1 _ refl) (
        rw (read_i64_be-int64_bytes end_lsn f.2 bytes 9 _ refl)
          (rw (read_i64_be-int64_bytes ts f.3 bytes 17 rest refl, signed-unsigned_i8 flags f.0))))

-- The guard in front of a tuple's letter.
letter_inside :
    (bytes : Bytes) (i letter : ℕ) (rest : Bytes)
    → At bytes i (letter ∷ rest)
    → leb (length bytes) i ≡ false
letter_inside bytes i letter rest h = ground (arith, At-lt-length bytes i letter rest h)

decode_insert-bytes :
    (oid : ℕ) (row : List Cell) (rest : Bytes)
    → oid < 2 ^ 32
    → TupleFits row
    → decode_insert (be_bytes4 oid ++ (b'N' ∷ tuple_bytes row) ++ rest)
      ≡ done (
        record { relation_oid = oid; new_tuple = map cell_column row },
        5 + length (tuple_bytes row),
      )
unfolding decode_insert
decode_insert-bytes oid row rest ho hr =
    let bytes = be_bytes4 oid ++ (b'N' ∷ tuple_bytes row) ++ rest in
    rw (read_i32_be-be_bytes4 oid bytes 0 _ refl, unsigned-signed_i32 oid ho)
      (rw (letter_inside bytes 4 b'N' (tuple_bytes row ++ rest) refl) (
        rw (index-At bytes 4 b'N' (tuple_bytes row ++ rest) refl)
          (rw (tuple_at-tuple_bytes row hr bytes 5 rest refl))))

old_and_new-bytes :
    (o : ℕ) (old row : List Cell) (bytes : Bytes) (i : ℕ) (rest : Bytes)
    → TupleFits old
    → TupleFits row
    → At bytes i (tuple_bytes old ++ (b'N' ∷ tuple_bytes row ++ rest))
    → decode_old_and_new o bytes i
      ≡ done (
        some (map cell_column old),
        map cell_column row,
        i + length (tuple_bytes old) + 1 + length (tuple_bytes row),
      )
unfolding decode_old_and_new
old_and_new-bytes o old row bytes i rest hd hr h = rw (tuple_at-tuple_bytes old hd bytes i _ h) (
    rw (letter_inside bytes _ b'N' _ at1) (
      rw (index-At bytes _ b'N' _ at1)
        (rw (tuple_at-tuple_bytes row hr bytes _ rest (At-append bytes _ (b'N' ∷ []) _ at1)))))
  where
    at1 : At bytes (i + length (tuple_bytes old)) (b'N' ∷ tuple_bytes row ++ rest)
    at1 = At-append bytes i (tuple_bytes old) _ h

decode_update-bytes :
    (oid : ℕ) (row : List Cell) (rest : Bytes)
    → oid < 2 ^ 32
    → TupleFits row
    → (n : ℕ) × (decode_update (be_bytes4 oid ++ (b'N' ∷ tuple_bytes row) ++ rest)
        ≡ done
            (record { relation_oid = oid; old_tuple = none; new_tuple = map cell_column row }, n))
unfolding decode_update decode_update_tuples
decode_update-bytes oid row rest ho hr = (
  5 + length (tuple_bytes row),
  (let bytes = be_bytes4 oid ++ (b'N' ∷ tuple_bytes row) ++ rest in
      rw (read_i32_be-be_bytes4 oid bytes 0 _ refl, unsigned-signed_i32 oid ho)
        (rw (letter_inside bytes 4 b'N' (tuple_bytes row ++ rest) refl) (
          rw (index-At bytes 4 b'N' (tuple_bytes row ++ rest) refl)
            (rw (tuple_at-tuple_bytes row hr bytes 5 rest refl))))),
)

abbrev update_old_bytes : Old → ℕ → List Cell → List Cell → Bytes
update_old_bytes o oid old row =
    be_bytes4 oid ++ (old_letter o ∷ (tuple_bytes old ++ (b'N' ∷ tuple_bytes row)))

update_tuples-old :
    (o : Old) (bytes : Bytes) (i : ℕ)
    → decode_update_tuples (old_letter o) bytes i ≡ decode_old_and_new (old_letter o) bytes i
unfolding decode_update_tuples
update_tuples-old key bytes i = refl
update_tuples-old full bytes i = refl

decode_update-old_bytes :
    (o : Old) (oid : ℕ) (old row : List Cell) (rest : Bytes)
    → oid < 2 ^ 32
    → TupleFits old
    → TupleFits row
    → (n : ℕ) × (decode_update (update_old_bytes o oid old row ++ rest)
        ≡ done (
          record {
            relation_oid = oid;
            old_tuple = some (map cell_column old);
            new_tuple = map cell_column row;
          },
          n,
        ))
unfolding decode_update
decode_update-old_bytes o oid old row rest ho hd hr = (
  5 + length (tuple_bytes old) + 1 + length (tuple_bytes row),
  rw (read_i32_be-be_bytes4 oid bytes 0 _ refl, unsigned-signed_i32 oid ho)
      (rw (letter_inside bytes 4 (old_letter o) _ refl) (
        rw (index-At bytes 4 (old_letter o) _ refl) (
          rw (update_tuples-old o bytes 5) (
            rw (
              old_and_new-bytes (old_letter o) old row bytes 5 rest hd hr
                (append_assoc (tuple_bytes old) (b'N' ∷ tuple_bytes row) rest)))))),
)
  where
    bytes : Bytes
    bytes = update_old_bytes o oid old row ++ rest

decode_delete-bytes :
    (o : Old) (oid : ℕ) (old : List Cell) (rest : Bytes)
    → oid < 2 ^ 32
    → TupleFits old
    → decode_delete (be_bytes4 oid ++ (old_letter o ∷ tuple_bytes old) ++ rest)
      ≡ done (
        record { relation_oid = oid; old_tuple = map cell_column old },
        5 + length (tuple_bytes old),
      )
unfolding decode_delete
decode_delete-bytes key oid old rest ho hd =
    let bytes = be_bytes4 oid ++ (b'K' ∷ tuple_bytes old) ++ rest in
    rw (read_i32_be-be_bytes4 oid bytes 0 _ refl, unsigned-signed_i32 oid ho)
      (rw (letter_inside bytes 4 b'K' (tuple_bytes old ++ rest) refl) (
        rw (index-At bytes 4 b'K' (tuple_bytes old ++ rest) refl)
          (rw (tuple_at-tuple_bytes old hd bytes 5 rest refl))))
decode_delete-bytes full oid old rest ho hd =
    let bytes = be_bytes4 oid ++ (b'O' ∷ tuple_bytes old) ++ rest in
    rw (read_i32_be-be_bytes4 oid bytes 0 _ refl, unsigned-signed_i32 oid ho)
      (rw (letter_inside bytes 4 b'O' (tuple_bytes old ++ rest) refl) (
        rw (index-At bytes 4 b'O' (tuple_bytes old ++ rest) refl)
          (rw (tuple_at-tuple_bytes old hd bytes 5 rest refl))))

decode_truncate-bytes :
    (options : ℤ) (oids : List ℕ) (rest : Bytes)
    → Fits (truncate_of options oids)
    → decode_truncate (be_bytes4 (length oids) ++ (int8_bytes options ++ oids_bytes oids) ++ rest)
      ≡ done (record { relation_oids = oids; options = options }, 5 + length (oids_bytes oids))
unfolding decode_truncate
decode_truncate-bytes options oids rest f =
    let bytes = be_bytes4 (length oids) ++ (int8_bytes options ++ oids_bytes oids) ++ rest in
    rw (read_i32_be-be_bytes4 (length oids) bytes 0 _ refl, unsigned-signed_i32 (length oids) f.1)
      (rw (index-At bytes 4 (unsigned i8_half options) (oids_bytes oids ++ rest) refl)
        (rw (decode_oids-bytes oids f.2 bytes 5 rest refl, signed-unsigned_i8 options f.0)))

pub decode-encode :
    (d : PgOutputDecoder) (m : WireMessage) (rest : Bytes)
    → Fits m
    → decode d (encode m ++ rest) ≡ done (some (meaning m), remember d m)
unfolding decode
decode-encode d (begin_of lsn ts xid) rest f = rw (decode_begin-bytes lsn ts xid rest f.0 f.1 f.2)
decode-encode d (commit_of flags lsn end_lsn ts) rest f =
    rw (decode_commit-bytes flags lsn end_lsn ts rest f)
decode-encode d (relation_of oid schema name identity columns) rest f =
    rw ((decode_relation-bytes oid schema name identity columns rest f.0 f.1 f.2 f.3 f.4 f.5).1)
decode-encode d (insert_of oid row) rest f = rw (decode_insert-bytes oid row rest f.0 f.1)
decode-encode d (update_of oid row) rest f = rw ((decode_update-bytes oid row rest f.0 f.1).1)
decode-encode d (update_old_of o oid old row) rest f =
    rw ((decode_update-old_bytes o oid old row rest f.0 f.1 f.2).1)
decode-encode d (delete_of o oid old) rest f = rw (decode_delete-bytes o oid old rest f.0 f.1)
decode-encode d (truncate_of options oids) rest f = rw (decode_truncate-bytes options oids rest f)
