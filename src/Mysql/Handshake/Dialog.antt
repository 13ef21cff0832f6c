-- ===== src/Mysql/Handshake/Dialog.antt =====
-- The handshake as a dialog: a server that sends its greeting and accepts what it is answered.
use opencdc.Base.{◌<◌, ◌^◌, ◌≡◌, refl, ◌∷◌, ◌++◌, length, All, Bytes, text, done}
use opencdc.Mysql.Config.{MySqlConnectorConfig}
use opencdc.Mysql.Packets.{Tcp, u64_bytes}
use opencdc.Mysql.Packets.Framing.{Open, framed, read_packet-framed, write_framed}
use opencdc.Mysql.Handshake.{handshake, auth_packet, send_auth, read_ok_response, check_ok}
use opencdc.Mysql.Handshake.Greeting.{Greeting, greeting_bytes, greeting_scramble-greeting}

module _ (t : Tcp) (o : Open t) where
  open o use {received, written}

  -- What the server sends: its greeting, and a packet that begins with 0, which says that the answer
  -- is accepted.
  abbrev pub dialog : Greeting → Bytes → Bytes → Bytes
  dialog g ok rest = framed 0 (greeting_bytes g) ++ (framed 2 (0 ∷ ok) ++ rest)

  -- With a server that sends its greeting and accepts the answer: the client writes one packet, which
  -- answers the scramble of that greeting, and is left where the server's bytes go on.
  pub handshake-greeting :
      (sha1 : Bytes → Bytes) (config : MySqlConnectorConfig) (g : Greeting) (ok rest w : Bytes)
      → All (λ b. 0 < b) g.version
      → length (greeting_bytes g) < 2 ^ 24
      → length (0 ∷ ok) < 2 ^ 24
      → handshake t sha1 config (received (dialog g ok rest), written w)
        ≡ done (
          received rest,
          written (w ++ framed 1 (auth_packet sha1 config (u64_bytes g.nonce ++ g.part2))),
        )
  unfolding handshake send_auth read_ok_response check_ok
  handshake-greeting sha1 config g ok rest w h small small' =
      rw (read_packet-framed t o 0 (greeting_bytes g) (framed 2 (0 ∷ ok) ++ rest) small) rw
        (greeting_scramble-greeting g h) rw
        (write_framed t o (auth_packet sha1 config (u64_bytes g.nonce ++ g.part2)) 1 w
          (text "send auth header failed: ") (text "send auth body failed: "))
        rw (read_packet-framed t o 2 (0 ∷ ok) rest small') refl
