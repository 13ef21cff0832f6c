-- ===== src/Examples/Postgres.antt =====
-- The replication protocol: a transaction on one table.
use opencdc.Base.{ℕ, ◌≡◌, refl, List, [], ◌∷◌, ◌++◌, none, some, text, arith, panicked}
use opencdc.Base.Int.{pos, negsuc}
use opencdc.Examples.Json.{json}
use opencdc.Postgres.Decoder.{RelationMessage, new, decode, get_relation}
use opencdc.Postgres.Decoder.Memory.{decode-begin_short}
use opencdc.Postgres.Protocol.{
  WireMessage, Column, Cell, value, null, unchanged, begin_of, commit_of, relation_of, insert_of,
  update_old_of, full, encode, relation_meaning, remember, Fits,
}
use opencdc.Postgres.Stream
use opencdc.Postgres.Stream.Meaning.{follow_all}
use opencdc.Postgres.Stream.{Chunk, chunk}
use opencdc.Postgres.Stream.Laws.{process_stream-encode, process_stream_extends}

abbrev id_column : Column
id_column = record { flags = pos 1; name = text "id"; type_oid = 23; type_modifier = negsuc 0 }

abbrev users : WireMessage
users = relation_of 16384 (text "public") (text "users") (pos 100) (id_column ∷ [])

abbrev row : List Cell
row = value (text "42") ∷ null ∷ unchanged ∷ []

abbrev changed : WireMessage
changed = update_old_of full 16384 row row

abbrev started : Stream.Streamer json ℕ (text "db") (pos 7)
started = record { decoder = new; wal_lsn = none; sent = [] }

abbrev messages : List WireMessage
messages =
    begin_of (pos 5) (negsuc 3) 9
    ∷ insert_of 16384 row
    ∷ commit_of (pos 0) (pos 5) (pos 6) (pos 8)
    ∷ []

-- The table is described anew, under another name.
abbrev renamed : WireMessage
renamed = relation_of 16384 (text "public") (text "people") (pos 100) []

renamed-Fits : Fits renamed
renamed-Fits = (
  omega arith,
  (omega arith, (omega arith, (omega arith, (omega arith, (omega arith, (omega arith, tt)))))),
  (omega arith, (omega arith, (omega arith, (omega arith, (omega arith, (omega arith, tt)))))),
  omega arith,
  omega arith,
  tt,
)

abbrev known : Stream.Streamer json ℕ (text "db") (pos 7)
known = record { decoder = remember new users; wal_lsn = none; sent = [] }

abbrev first_users : RelationMessage
first_users = relation_meaning 16384 (text "public") (text "users") (id_column ∷ [])

users_known : get_relation (remember new users) 16384 ≡ some first_users
unfolding get_relation
users_known = refl

abbrev after_renamed : Stream.Streamer json ℕ (text "db") (pos 7)
after_renamed = follow_all json ℕ (text "db") (pos 7) known (renamed ∷ [])

process_stream_extends_example :
    ((new_events : List (Stream.Event json ℕ (text "db") (pos 7))) × (after_renamed.sent
        ≡ [] ++ new_events))
    × (get_relation after_renamed.decoder 16384 ≡ some first_users)
process_stream_extends_example =
    process_stream_extends json ℕ (text "db") (pos 7) (chunk (encode renamed) ∷ []) known
      after_renamed 16384 first_users
      (process_stream-encode json ℕ (text "db") (pos 7) (renamed ∷ []) known (renamed-Fits, tt))
      users_known

decode-begin_short_example : decode new (b'B' ∷ 1 ∷ 2 ∷ []) ≡ panicked
decode-begin_short_example = decode-begin_short new (1 ∷ 2 ∷ []) (omega arith)
