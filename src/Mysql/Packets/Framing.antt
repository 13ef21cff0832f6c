-- ===== src/Mysql/Packets/Framing.antt =====
-- The frame around a packet: what `write_command` writes, and what `read_packet` reads of it.
use opencdc.Base.{
  ℕ, ◌/◌, ◌%◌, ◌^◌, ◌<◌, ◌≡◌, refl, ap, inr, [], ◌∷◌, ◌++◌, ltb, lt→ltb, suc, if◌then◌else◌, length,
  Bytes, text, done, ◌>>=◌, arith, append_assoc,
}
use opencdc.Wire.{index, le4}
use opencdc.Mysql.Packets.{Tcp, map_err, packet_header, read_packet, write_command}

-- A connection that stays open: a reader whose peer has sent some bytes reads them in their order, and
-- a writer adds what it writes to what it has written.
pub record Open (t : Tcp) : Type 0 where
  pub received : Bytes → t.Reader
  pub written : Bytes → t.Writer
  pub reads :
      (xs ys : Bytes) → t.read_exact (length xs) (received (xs ++ ys)) ≡ inr (xs, received ys)
  pub writes : (w xs : Bytes) → t.write_all xs (written w) ≡ inr (written (w ++ xs))

abbrev pub framed : ℕ → Bytes → Bytes
framed seq packet = packet_header seq packet ++ packet

module _ (t : Tcp) (o : Open t) where
  open o use {received, written, reads, writes}

  read_body :
      (packet rest : Bytes) (len : ℕ)
      → len ≡ length packet
      → (if ltb 0 len
          then map_err
              (text "read packet body failed: ")
              (t.read_exact len (received (packet ++ rest)))
          else done ([], received (packet ++ rest)))
        ≡ done (packet, received rest)
  read_body [] rest len e = rw e refl
  read_body (x ∷ xs) rest len e =
      rw (e, reads (x ∷ xs) rest, lt→ltb 0 (suc (length xs)) (omega arith)) refl

  -- A header and its packet, written one after the other.
  pub write_framed :
      (packet : Bytes) (seq : ℕ) (w what what' : Bytes)
      → (map_err what (t.write_all (packet_header seq packet) (written w)) >>= λ v.
          map_err what' (t.write_all packet v))
        ≡ done (written (w ++ framed seq packet))
  unfolding packet_header
  write_framed packet seq w what what' =
      rw (writes w (packet_header seq packet)) rw (writes (w ++ packet_header seq packet) packet)
        (ap (λ (v : Bytes). done (written v)) (append_assoc w (packet_header seq packet) packet))

  header_length :
      (n : ℕ)
      → n < 2 ^ 24
      → le4 (n % 2 ^ 32 % 2 ^ 8) (n % 2 ^ 32 / 2 ^ 8 % 2 ^ 8) (n % 2 ^ 32 / 2 ^ 16 % 2 ^ 8) 0 ≡ n
  header_length n h = omega arith

  pub read_packet-framed :
      (seq : ℕ) (packet rest : Bytes)
      → length packet < 2 ^ 24
      → read_packet t (received (framed seq packet ++ rest)) ≡ done (packet, received rest)
  unfolding read_packet packet_header index
  read_packet-framed seq packet rest h =
      rw (reads (packet_header seq packet) (packet ++ rest))
        (read_body packet rest _ (header_length (length packet) h))

  -- A command is written as one frame behind what was written before, and a frame is read back as the
  -- packet in it, whatever follows, as long as its three bytes of length can hold the packet's length.
  pub read_packet-write_command :
      (command : ℕ) (args rest w : Bytes)
      → length (command ∷ args) < 2 ^ 24
      → (write_command t command args (written w) ≡ done (written (w ++ framed 0 (command ∷ args))))
        × (read_packet t (received (framed 0 (command ∷ args) ++ rest))
            ≡ done (command ∷ args, received rest))
  unfolding write_command
  read_packet-write_command command args rest w h = (
    write_framed (command ∷ args) 0 w (text "write command header failed: ")
        (text "write command body failed: "),
    read_packet-framed 0 (command ∷ args) rest h,
  )
