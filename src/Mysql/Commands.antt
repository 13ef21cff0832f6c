-- ===== src/Mysql/Commands.antt =====
-- crates/opencdc-connector/src/mysql/binlog.rs: the commands that make the server send its binary log.
use opencdc.Base.{ℕ, ◌%◌, ◌^◌, [], ◌∷◌, ◌++◌, length, Bytes, Text, Outcome, done, ◌>>=◌}
use opencdc.Mysql.Config.{MySqlConnectorConfig}
use opencdc.Mysql.Packets.{Tcp, u16_bytes, u32_bytes, u64_bytes, write_command}
use opencdc.Mysql.Handshake.{read_ok_response}

-- A text behind its length as one byte.
unfoldable pub counted_text : Text → Bytes
counted_text s = length s % 2 ^ 8 ∷ s

unfoldable pub register_args : MySqlConnectorConfig → Bytes
register_args config =
    u32_bytes config.server_id
    ++ (counted_text config.host
        ++ (counted_text config.user
            ++ (counted_text config.password
                ++ (u16_bytes config.port ++ (u32_bytes 0 ++ u32_bytes 0)))))

unfoldable pub gtid_args : MySqlConnectorConfig → Text → Bytes
gtid_args config gtid_set =
    u16_bytes 0
    ++ (u32_bytes config.server_id
        ++ ((0 ∷ [])
            ++ (u64_bytes 4 ++ (u32_bytes 0 ++ (u32_bytes (length gtid_set) ++ gtid_set)))))

unfoldable pub binlog_args : MySqlConnectorConfig → Text → ℕ → Bytes
binlog_args config filename pos =
    u32_bytes pos ++ (u16_bytes 0 ++ (u32_bytes config.server_id ++ (filename ++ (0 ∷ []))))

module _ (t : Tcp) where
  open t use {Reader, Writer}

  unfoldable pub register_slave :
      MySqlConnectorConfig → Reader × Writer → Outcome Text (Reader × Writer)
  register_slave config (r, w) = do
    w ← write_command t 0x15 (register_args config) w
    r ← read_ok_response t r
    done (r, w)

  unfoldable pub dump_gtid : MySqlConnectorConfig → Text → Writer → Outcome Text Writer
  dump_gtid config gtid_set w = write_command t 0x1e (gtid_args config gtid_set) w

  unfoldable pub dump_binlog :
      MySqlConnectorConfig → Text → ℕ → Reader × Writer → Outcome Text (Reader × Writer)
  dump_binlog config filename pos (r, w) = do
    w ← write_command t 0x12 (binlog_args config filename pos) w
    r ← read_ok_response t r
    done (r, w)
