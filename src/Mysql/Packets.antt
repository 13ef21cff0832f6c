-- ===== src/Mysql/Packets.antt =====
-- crates/opencdc-connector/src/mysql/binlog.rs: `read_packet`, `write_command` and the header in front
-- of a packet, three bytes of length and a sequence number. The connection is tokio's, a parameter.
pub mod Framing
use opencdc.Base.{
  ℕ, ◌+◌, ◌*◌, ◌/◌, ◌%◌, ◌^◌, ◌⊎◌, inl, inr, [], ◌∷◌, ◌++◌, ltb, if◌then◌else◌, length, Bytes, Text,
  text, Outcome, done, failed, ◌>>=◌,
}
use opencdc.Wire.{index, le4}

-- The two halves of a connection: `read_exact` returns as many bytes as asked for or an error, and
-- `write_all` writes all bytes or returns an error.
pub record Tcp : Type 1 where
  pub Reader : Type 0
  pub Writer : Type 0
  pub read_exact : ℕ → Reader → Text ⊎ (Bytes × Reader)
  pub write_all : Bytes → Writer → Text ⊎ Writer

-- `.map_err(|e| format!("...: {}", e))?`
abbrev pub map_err : {A : Type 0} → Text → Text ⊎ A → Outcome Text A
map_err what (inl e) = failed (what ++ e)
map_err what (inr a) = done a

-- `to_le_bytes` of `u16`, `u32` and `u64`
abbrev pub u16_bytes : ℕ → Bytes
u16_bytes v = v % 2 ^ 8 ∷ v / 2 ^ 8 % 2 ^ 8 ∷ []

abbrev pub u32_bytes : ℕ → Bytes
u32_bytes v = v % 2 ^ 8 ∷ v / 2 ^ 8 % 2 ^ 8 ∷ v / 2 ^ 16 % 2 ^ 8 ∷ v / 2 ^ 24 % 2 ^ 8 ∷ []

abbrev pub u64_bytes : ℕ → Bytes
u64_bytes v = u32_bytes (v % 2 ^ 32) ++ u32_bytes (v / 2 ^ 32)

-- The four bytes in front of a packet with this sequence number.
unfoldable pub packet_header : ℕ → Bytes → Bytes
packet_header seq packet =
    let len = length packet % 2 ^ 32 in
    len % 2 ^ 8 ∷ len / 2 ^ 8 % 2 ^ 8 ∷ len / 2 ^ 16 % 2 ^ 8 ∷ seq ∷ []

module _ (t : Tcp) where
  open t use {Reader, Writer, read_exact, write_all}

  unfoldable pub read_packet : Reader → Outcome Text (Bytes × Reader)
  read_packet r = do
    (header, r) ← map_err (text "read packet header failed: ") (read_exact 4 r)
    a ← index header 0
    b ← index header 1
    c ← index header 2
    let len = le4 a b c 0
    if ltb 0 len
        then map_err (text "read packet body failed: ") (read_exact len r)
        else done ([], r)

  unfoldable pub write_command : ℕ → Bytes → Writer → Outcome Text Writer
  write_command command args w = do
    let packet = command ∷ args
    w ← map_err (text "write command header failed: ") (write_all (packet_header 0 packet) w)
    map_err (text "write command body failed: ") (write_all packet w)
