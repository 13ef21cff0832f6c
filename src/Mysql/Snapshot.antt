-- ===== src/Mysql/Snapshot.antt =====
-- crates/opencdc-connector/src/mysql/snapshot.rs: the packets, the greeting and the authentication, the
-- answer to a query, and the run over the tables. Past `read_mysql_packet` the reader is what it yields:
-- packets, and the error of a read that fails.
pub mod Query
pub mod Run
pub mod Greeting
pub mod Rows
pub mod Discover
use opencdc.Base.{
  ℕ, zero, suc, ◌+◌, ◌-◌, ◌*◌, ◌/◌, ◌%◌, ◌^◌, Bool, true, false, not, ◌&&◌, ◌||◌, ◌⊎◌, inl, inr,
  Option, none, some, List, [], ◌∷◌, ◌++◌, ltb, leb, ◌==◌, if◌then◌else◌, length, drop, get_or,
  Bytes, Text, text, Map, lookup, insert, Outcome, done, failed, panicked, ◌>>=◌, ◌>>◌,
}
use opencdc.Base.Int.{ℤ}
use opencdc.Core.Error.{Error, other}
use opencdc.Core.Format.{decimal, hex2}
use opencdc.Core.Json.{SerdeJson}
use opencdc.Core.ConnectorType
use opencdc.Core.SourceInfo
use opencdc.Core.ChangeEvent.{ChangeEvent, snapshot_event}
use opencdc.Core.Offset.{ConnectorOffset, snapshot_done}
use opencdc.Wire.{index, slice, slice_from, le2, le4}
use opencdc.Wire.Utf8.{from_utf8_lossy}
use opencdc.Mysql.Config.{MySqlConnectorConfig}
use opencdc.Mysql.Packets.{Tcp, packet_header}
use opencdc.Mysql.Handshake.{skip_name, auth_fields}

-- `.map_err(|e| Error::Other(format!("...: {}", e)))?`
abbrev pub map_other : {A : Type 0} → Text → Text ⊎ A → Outcome Error A
map_other what (inl e) = failed (other (what ++ e))
map_other what (inr a) = done a

-- `let err = String::from_utf8_lossy(&data[3..]); return Err(..)`
unfoldable pub server_error : {A : Type 0} → Text → Bytes → Outcome Error A
server_error what bytes = do
  message ← slice_from bytes 3
  failed (other (what ++ from_utf8_lossy message))

-- `data[pos..pos + (auth_len - 8)]`, where it is within the data.
unfoldable pub second_part : Bytes → ℕ → ℕ → Outcome Error Bytes
second_part bytes auth_len pos =
    if ltb 8 auth_len && leb (pos + (auth_len - 8)) (length bytes)
    then slice bytes pos (pos + (auth_len - 8))
    else done []

-- What `parse_greeting` reads behind the server's version, from `pos` on.
unfoldable pub auth_of : Bytes → ℕ → Outcome Error Bytes
auth_of bytes pos = do
  auth1 ← slice bytes (pos + 4) (pos + 12)
  low ← index bytes (pos + 18)
  high ← index bytes (pos + 19)
  auth2 ← second_part bytes (get_or bytes (pos + 20) 0) (pos + 21)
  done (auth1 ++ auth2)

unfoldable pub parse_greeting : Bytes → Outcome Error Bytes
parse_greeting [] = failed (other (text "empty greeting"))
parse_greeting (first ∷ rest) =
    if first == 0xff
    then server_error (text "mysql greeting error: ") (first ∷ rest)
    else if not (first == 10)
    then failed (other (text "unsupported protocol: " ++ decimal first))
    else auth_of (first ∷ rest) (skip_name 1 rest + 1)

-- The value, and how many bytes it took.
unfoldable pub decode_length_str : Bytes → Outcome Error (ℕ × Text)
decode_length_str [] = done (0, [])
decode_length_str (len ∷ rest) =
    if ltb len (length (len ∷ rest))
    then (do run ← slice (len ∷ rest) 1 (1 + len); done (1 + len, from_utf8_lossy run))
    else done (1, [])

unfoldable pub check_auth : Bytes → Outcome Error Unit
check_auth [] = failed (other (text "empty auth response"))
check_auth (first ∷ rest) =
    if first == 0 || first == 0xfe
    then done tt
    else if first == 0xff
    then server_error (text "auth failed: ") (first ∷ rest)
    else failed (other (text "unexpected auth response: " ++ hex2 first))

-- What `read_mysql_packet` yields from here on: packets, and then a failing read, with the text of its
-- error, which says whether it failed in a packet's header or in its body.
pub data PacketReader : Type 0 where
  read_fails : Text → PacketReader
  packet_then : Bytes → PacketReader → PacketReader

-- What `reader` yields next.
unfoldable pub next_packet : PacketReader → Outcome Error (Bytes × PacketReader)
next_packet (read_fails e) = failed (other e)
next_packet (packet_then payload r) = done (payload, r)

-- `for _ in 0..n { read_mysql_packet(reader).await?; }`
unfoldable pub skip_packets : ℕ → PacketReader → Outcome Error (PacketReader)
skip_packets zero r = done r
skip_packets (suc n) r = do (column, r) ← next_packet r; skip_packets n r

module _ (t : Tcp) where
  open t use {Reader, Writer, read_exact, write_all}

  unfoldable pub read_mysql_packet : Reader → Outcome Error (Bytes × Reader)
  read_mysql_packet r = do
    (header, r) ← map_other (text "read packet header: ") (read_exact 4 r)
    a ← index header 0
    b ← index header 1
    c ← index header 2
    let len = le4 a b c 0
    if len == 0 then done ([], r) else map_other (text "read packet body: ") (read_exact len r)

  -- The packet ends behind the database's name: the plugin's name is not sent.
  unfoldable pub send_auth_packet :
      (Bytes → Bytes) → MySqlConnectorConfig → Bytes → Writer → Outcome Error Writer
  send_auth_packet sha1 config scramble w = do
    let packet = auth_fields sha1 config scramble
    w ← map_other (text "auth header: ") (write_all (packet_header 1 packet) w)
    map_other (text "auth body: ") (write_all packet w)

  unfoldable pub send_query : Text → Writer → Outcome Error Writer
  send_query query w = do
    w ← map_other (text "write query header: ") (write_all (packet_header 0 query) w)
    map_other (text "write query body: ") (write_all query w)

unfoldable pub read_ok_packet : PacketReader → Outcome Error (PacketReader)
read_ok_packet r = do (resp, r) ← next_packet r; check_auth resp; done r
