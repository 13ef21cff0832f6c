-- ===== src/Examples/Connect.antt =====
-- MySQL's connection: a frame, a handshake, the answer to a query, a snapshot, and the attempts.
use opencdc.Base.{
  ℕ, ◌+◌, ◌^◌, ◌<◌, ◌≡◌, refl, Bool, true, false, ◌⊎◌, inl, inr, none, some, List, [], ◌∷◌, ◌++◌,
  leb, if◌then◌else◌, length, take, drop, map, All, Bytes, Text, text, done, Option, arith,
  take-length-append, drop-length-append, length-append, ltb,
}
use opencdc.Base.Int.{pos}
use opencdc.Examples.Json.{json}
use opencdc.Connector.Retry.{connect_with_retry}
use opencdc.Connector.Retry.Laws.{retry_connects, retry_bounds, Bounded}
use opencdc.Mysql.Config.{MySqlConnectorConfig}
use opencdc.Mysql.Packets.{Tcp, read_packet, write_command, u64_bytes}
use opencdc.Mysql.Packets.Framing.{Open, framed, read_packet-write_command}
use opencdc.Mysql.Handshake.{handshake, auth_packet}
use opencdc.Mysql.Handshake.Greeting.{Greeting, greeting_bytes}
use opencdc.Mysql.Handshake.Dialog.{dialog, handshake-greeting}
use opencdc.Mysql.Snapshot.Greeting.{parse_greeting-greeting}
use opencdc.Mysql.Snapshot.{PacketReader, read_fails, packet_then, parse_greeting}
use opencdc.Mysql.Snapshot.Query.{query_table}
use opencdc.Mysql.Snapshot.Rows.{answer, row_map, query_table-answer}
use opencdc.Mysql.Snapshot.Run.{run}
use opencdc.Mysql.Snapshot.Discover.{run_unlisted}

-- A connection whose two halves are the bytes to come and the bytes written.
abbrev tcp : Tcp
tcp = record {
  Reader = Bytes;
  Writer = Bytes;
  read_exact = λ n r. if leb n (length r) then inr (take n r, drop n r) else inl (text "early eof");
  write_all = λ xs w. inr (w ++ xs);
}

within : (a b : ℕ) → leb a (a + b) ≡ true
within a b = ground arith

reads_law : (xs ys : Bytes) → tcp.read_exact (length xs) (xs ++ ys) ≡ inr (xs, ys)
reads_law xs ys =
    rw
      (
        length-append xs ys,
        within (length xs) (length ys),
        take-length-append xs ys,
        drop-length-append xs ys,
      )
      refl

abbrev open_tcp : Open tcp
open_tcp = record { received = λ r. r; written = λ w. w; reads = reads_law; writes = λ w xs. refl }

read_packet-write_command_example :
    (write_command tcp 3 (7 ∷ 8 ∷ []) (1 ∷ []) ≡ done (1 ∷ framed 0 (3 ∷ 7 ∷ 8 ∷ [])))
    × (read_packet tcp (framed 0 (3 ∷ 7 ∷ 8 ∷ []) ++ (9 ∷ [])) ≡ done (3 ∷ 7 ∷ 8 ∷ [], 9 ∷ []))
read_packet-write_command_example =
    read_packet-write_command tcp open_tcp 3 (7 ∷ 8 ∷ []) (9 ∷ []) (1 ∷ []) (omega arith)

abbrev config : MySqlConnectorConfig
config = record {
  host = text "db";
  port = 3306;
  user = text "root";
  password = text "secret";
  database = text "shop";
  server_id = 1001;
  tables = [];
  heartbeat_interval = 30;
  max_reconnect_attempts = 5;
}

-- A stand-in for SHA-1.
abbrev digest : Bytes → Bytes
digest bytes = take 20 (bytes ++ (1 ∷ 2 ∷ 3 ∷ []))

abbrev greeting : Greeting
greeting = record {
  version = text "8.0.36";
  connection_id = 12;
  nonce = 2 ^ 60 + 5;
  part2 = 11 ∷ 12 ∷ 13 ∷ 14 ∷ 15 ∷ 16 ∷ 17 ∷ 18 ∷ 19 ∷ 20 ∷ 21 ∷ 22 ∷ 0 ∷ [];
  capability_flags = 0xffff;
  character_set = 33;
  status_flags = 2;
  plugin = text "mysql_native_password" ++ (0 ∷ []);
}

abbrev nonzero_version : All (λ b. 0 < b) greeting.version
nonzero_version =
    (omega arith, (omega arith, (omega arith, (omega arith, (omega arith, (omega arith, tt))))))

handshake-greeting_example :
    handshake tcp digest config (dialog tcp open_tcp greeting (0 ∷ []) (5 ∷ []), [])
    ≡ done
        (5 ∷ [], framed 1 (auth_packet digest config (u64_bytes greeting.nonce ++ greeting.part2)))
handshake-greeting_example =
    handshake-greeting tcp open_tcp digest config greeting (0 ∷ []) (5 ∷ []) [] nonzero_version
      (omega arith) (omega arith)

parse_greeting-greeting_example :
    parse_greeting (greeting_bytes greeting)
    ≡ done (u64_bytes greeting.nonce ++ (0 ∷ 0 ∷ 0 ∷ 0 ∷ 0 ∷ 0 ∷ 0 ∷ 0 ∷ 0 ∷ 0 ∷ 11 ∷ 12 ∷ 13 ∷ []))
parse_greeting-greeting_example = parse_greeting-greeting greeting nonzero_version

abbrev cells : List (List (Option Text))
cells = (some (text "1") ∷ some (text "ann") ∷ []) ∷ (some (text "2") ∷ none ∷ []) ∷ []

abbrev closed : PacketReader
closed = read_fails (text "read packet header: early eof")

query_table-answer_example :
    query_table json tcp
      (text "SELECT 1")
      (answer json ((1 ∷ []) ∷ (2 ∷ []) ∷ []) (0xfe ∷ []) cells (0xfe ∷ []) closed, [])
    ≡ done (map (λ r. row_map json 0 r []) cells, closed, framed 0 (text "SELECT 1"))
unfolding opencdc.Mysql.Snapshot.Query.ends_rows
query_table-answer_example =
    query_table-answer json tcp open_tcp (text "SELECT 1") [] ((1 ∷ []) ∷ (2 ∷ []) ∷ []) (0xfe ∷ [])
      cells (0xfe ∷ []) closed (omega arith) (omega arith)
      ((refl, (omega arith, (omega arith, tt))), ((refl, (omega arith, (tt, tt))), tt)) refl

-- A server that lists one table of two columns.
abbrev server : Text ⊎ (PacketReader × Bytes)
server = inr (
  packet_then (greeting_bytes greeting) (
      packet_then (0 ∷ []) (
        answer json ((1 ∷ []) ∷ (2 ∷ []) ∷ []) (0xfe ∷ [])
          ((some (text "shop") ∷ some (text "orders") ∷ []) ∷ []) (0xfe ∷ []) closed)),
  [],
)

run_unlisted_example :
    (run json tcp digest config Unit (pos 0) (λ i. false) (λ i. false) [] server server).0 ≡ []
run_unlisted_example =
    run_unlisted json tcp digest config Unit (pos 0) (λ i. false) (λ i. false) server server

-- The third attempt succeeds.
abbrev flaky : ℕ → (Text × Text) ⊎ Bool
flaky i = if ltb i 2 then inl (text "mysql connect", text "refused") else inr true

refused : (i : ℕ) → i < 2 → flaky i ≡ inl (text "mysql connect", text "refused")
refused i h = rw (below i h) refl
  where
    below : (k : ℕ) → k < 2 → ltb k 2 ≡ true
    below k l = ground arith

retry_connects_example : connect_with_retry [] flaky 5 ≡ (done true, 500 ∷ 1000 ∷ [])
retry_connects_example =
    retry_connects [] flaky 2 5 (λ i. (text "mysql connect", text "refused")) true (omega arith)
      refused refl

retry_bounds_example : Bounded 5 5 (connect_with_retry [] flaky 5).1
retry_bounds_example = retry_bounds [] flaky 5
