-- ===== src/Mysql/Handshake.antt =====
-- crates/opencdc-connector/src/mysql/binlog.rs: `handshake`, from the server's greeting to its answer
-- to the authentication. SHA-1 is a parameter, as is the connection.
pub mod Greeting
pub mod Dialog
use opencdc.Base.{
  ℕ, zero, suc, ◌+◌, ◌-◌, ◌*◌, ◌/◌, ◌%◌, ◌^◌, Bool, true, false, not, ◌||◌, ◌⊎◌, List, [], ◌∷◌,
  ◌++◌, ltb, ◌==◌, if◌then◌else◌, length, drop, replicate, Bytes, Text, text, Outcome, done, failed,
  ◌>>=◌, ◌>>◌,
}
use Prim.Native.Nat.{min}
use opencdc.Core.Format.{decimal, hex2}
use opencdc.Wire.{index, slice, slice_from}
use opencdc.Wire.Utf8.{from_utf8_lossy}
use opencdc.Mysql.Config.{MySqlConnectorConfig}
use opencdc.Mysql.Packed.{le_u16, le_u32}
use opencdc.Mysql.Packets.{
  Tcp, map_err, u16_bytes, u32_bytes, u64_bytes, packet_header, read_packet,
}

-- `while pos < data.len() && data[pos] != 0 { pos += 1; }`, on the bytes from `pos` on.
unfoldable pub skip_name : ℕ → Bytes → ℕ
skip_name pos [] = pos
skip_name pos (b ∷ rest) = let later = skip_name (pos + 1) rest in if b == 0 then pos else later

-- The second part of the scramble, behind the length of both parts together.
unfoldable pub scramble_part2 : Bytes → ℕ → ℕ → Outcome Text Bytes
scramble_part2 greeting auth_data_len pos =
    if ltb 8 auth_data_len
    then slice greeting pos (min (pos + (auth_data_len - 8)) (length greeting))
    else done []

-- `let auth_data_len = if greeting.len() > pos { .. }`: the length, and the position behind it.
unfoldable pub read_auth_len : Bytes → ℕ → Outcome Text (ℕ × ℕ)
read_auth_len greeting pos =
    if ltb pos (length greeting)
    then (do len ← index greeting pos; done (len, pos + 1))
    else done (0, pos)

-- What `handshake` reads behind the server's version, from `pos` on.
unfoldable pub scramble_at : Bytes → ℕ → Outcome Text Bytes
scramble_at greeting pos = do
  connection_id ← le_u32 greeting (pos + 0)
  part1 ← slice greeting (pos + 4) (pos + 12)
  filler ← index greeting (pos + 12)
  capability_flags_1 ← le_u16 greeting (pos + 13)
  character_set ← index greeting (pos + 15)
  status_flags ← le_u16 greeting (pos + 16)
  capability_flags_2 ← le_u16 greeting (pos + 18)
  (auth_data_len, pos) ← read_auth_len greeting (pos + 20)
  part2 ← scramble_part2 greeting auth_data_len (pos + 10)
  done (part1 ++ part2)

-- What `handshake` reads of the greeting.
unfoldable pub greeting_scramble : Bytes → Outcome Text Bytes
greeting_scramble greeting = do
  first ← index greeting 0
  if first == 0xff
      then (do
        message ← slice_from greeting 3
        failed (text "mysql handshake error: " ++ from_utf8_lossy message))
      else if not (first == 10)
      then failed (text "unsupported protocol version: " ++ decimal first)
      else scramble_at greeting (skip_name 1 (drop 1 greeting) + 1)

-- `^` of two numbers of `w` bits
unfoldable pub xor : ℕ → ℕ → ℕ → ℕ
xor zero a b = 0
xor (suc w) a b = (a + b) % 2 + 2 * xor w (a / 2) (b / 2)

-- `for (a, b) in x.iter().zip(y.iter())`
unfoldable pub zip_xor : Bytes → Bytes → Bytes
zip_xor [] ys = []
zip_xor (x ∷ xs) [] = []
zip_xor (x ∷ xs) (y ∷ ys) = xor 8 x y ∷ zip_xor xs ys

unfoldable pub mysql_native_password : (Bytes → Bytes) → Text → Bytes → Bytes
mysql_native_password sha1 password scramble =
    let hash1 = sha1 password in let hash2 = sha1 hash1 in zip_xor hash1 (sha1 (scramble ++ hash2))

-- The client's capabilities, 0x00a085 | 0x000008 | 0x000200
abbrev pub capabilities : ℕ
capabilities = 0xa28d

-- What both clients put into their answer, up to the database's name.
unfoldable pub auth_fields : (Bytes → Bytes) → MySqlConnectorConfig → Bytes → Bytes
auth_fields sha1 config scramble =
    let auth_response = mysql_native_password sha1 config.password scramble in
    u32_bytes capabilities
    ++ (u32_bytes 16777215
        ++ ((33 ∷ replicate 23 0)
            ++ (config.user
                ++ (0 ∷ length auth_response % 2 ^ 8 ∷ auth_response
                    ++ (config.database ++ (0 ∷ []))))))

unfoldable pub auth_packet : (Bytes → Bytes) → MySqlConnectorConfig → Bytes → Bytes
auth_packet sha1 config scramble =
    let plugin = text "mysql_native_password" in
    auth_fields sha1 config scramble ++ (length plugin ∷ plugin)

-- The first byte of an answer, after the test for an empty one.
unfoldable pub check_ok : Bytes → Outcome Text Unit
check_ok [] = failed (text "empty response")
check_ok (first ∷ rest) =
    if first == 0 || first == 0xfe
    then done tt
    else if first == 0xff
    then (do
      message ← slice_from (first ∷ rest) 3
      failed (text "mysql error: " ++ from_utf8_lossy message))
    else failed (text "unexpected response: " ++ hex2 first)

module _ (t : Tcp) where
  open t use {Reader, Writer, write_all}

  unfoldable pub send_auth :
      (Bytes → Bytes) → MySqlConnectorConfig → Bytes → Writer → Outcome Text Writer
  send_auth sha1 config scramble w = do
    let packet = auth_packet sha1 config scramble
    w ← map_err (text "send auth header failed: ") (write_all (packet_header 1 packet) w)
    map_err (text "send auth body failed: ") (write_all packet w)

  unfoldable pub read_ok_response : Reader → Outcome Text Reader
  read_ok_response r = do (resp, r) ← read_packet t r; check_ok resp; done r

  unfoldable pub handshake :
      (Bytes → Bytes) → MySqlConnectorConfig → Reader × Writer → Outcome Text (Reader × Writer)
  handshake sha1 config (r, w) = do
    (greeting, r) ← read_packet t r
    scramble ← greeting_scramble greeting
    w ← send_auth sha1 config scramble w
    r ← read_ok_response r
    done (r, w)

  -- `BinlogClient::connect`, on what `TcpStream::connect` returns.
  unfoldable pub connect :
      (Text → Text ⊎ (Reader × Writer))
      → (Bytes → Bytes)
      → MySqlConnectorConfig
      → Outcome Text (Reader × Writer)
  connect tcp_connect sha1 config = do
    let addr = config.host ++ (text ":" ++ decimal config.port)
    stream ← map_err (text "connect failed: ") (tcp_connect addr)
    handshake sha1 config stream
