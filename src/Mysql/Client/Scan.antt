-- ===== src/Mysql/Client/Scan.antt =====
-- mysql/binlog.rs, `next_event`: the loop over the events of one packet.
use opencdc.Base.{
  ℕ, zero, suc, ◌+◌, ◌<◌, ◌≤◌, ◌≡◌, refl, sym, ◌∙◌, length, Bytes, Text, Option, none, some, arith,
  true, false,
}
use opencdc.Base.{
  leb, ltb, if◌then◌else◌, Outcome, done, Bool-cases, inl, inr, ◌>>=◌, bind_congr,
  bind_congr_Ensures,
}
use opencdc.Core.Json.{SerdeJson}
use opencdc.Wire.{slice}
use opencdc.Wire.Bounds.{slice-length}
use opencdc.Mysql.Events.{BinlogEvent, Client, parse_event}
use opencdc.Mysql.Client.{EventHeader, read_header, handed_out, scan_packet}

module _ (j : SerdeJson) (hex_encode : Bytes → Text) (packet : Bytes) where
  abbrev Scanned : Type 0
  Scanned = Outcome Text (Option (EventHeader × BinlogEvent j.Value) × Client)

  abbrev scan : ℕ → ℕ → Client → Scanned
  scan fuel pos c = scan_packet j hex_encode fuel packet pos c

  abbrev hand_out : EventHeader → Client → Option (BinlogEvent j.Value) → Scanned → Scanned
  hand_out header c (some event) more = done (some (header, event), c)
  hand_out header c none more = more

  abbrev behind_header : (EventHeader → Client → Scanned) → ℕ → Client → EventHeader → Scanned
  behind_header more pos c header =
      if ltb (length packet) (pos + header.event_size)
      then done (none, c)
      else (slice packet (pos + 19) (pos + header.event_size) >>= λ event_data.
          parse_event j hex_encode header.event_type event_data c >>= λ r.
          hand_out header r.1 (handed_out j hex_encode r.0) (more header r.1))

  scan_end :
      (fuel pos : ℕ) (c : Client) → length packet < pos + 19 → scan fuel pos c ≡ done (none, c)
  unfolding scan_packet
  scan_end zero pos c h = refl
  scan_end (suc fuel) pos c h = rw (past (pos + 19) (length packet) h, scan_packet) refl
    where
      past : (a b : ℕ) → b < a → leb a b ≡ false
      past a b l = ground arith

  scan_step :
      (fuel pos : ℕ) (c : Client)
      → pos + 19 ≤ length packet
      → scan (suc fuel) pos c ≡ (
          read_header packet pos
          >>= behind_header (λ header d. scan fuel (pos + header.event_size) d) pos c)
  unfolding scan_packet
  scan_step fuel pos c h =
      rw (inside (pos + 19) (length packet) h, scan_packet)
        (bind_congr (read_header packet pos) _ _ λ header.
          elim (Bool-cases (ltb (length packet) (pos + header.event_size))) [
            | inl cut ↦ rw cut refl
            | inr whole ↦ rw whole (
                bind_congr (slice packet (pos + 19) (pos + header.event_size)) _ _ λ event_data.
                  bind_congr (parse_event j hex_encode header.event_type event_data c) _ _ λ r.
                    either header r.1 (scan fuel (pos + header.event_size) r.1)
                      (handed_out j hex_encode r.0))
          ])
    where
      inside : (a b : ℕ) → a ≤ b → leb a b ≡ true
      inside a b l = ground arith

      either :
          (header : EventHeader) (d : Client) (more : Scanned) (o : Option (BinlogEvent j.Value))
          → (elim o [ some evt ↦ done (some (header, evt), d) | none ↦ more ])
            ≡ hand_out header d o more
      either header d more none = refl
      either header d more (some evt) = refl

  hand_out_congr :
      (header : EventHeader) (c : Client) (o : Option (BinlogEvent j.Value)) (a b : Scanned)
      → a ≡ b
      → hand_out header c o a ≡ hand_out header c o b
  hand_out_congr header c none a b h = h
  hand_out_congr header c (some event) a b h = refl

  behind_congr :
      (more more' : EventHeader → Client → Scanned) (pos : ℕ) (c : Client) (header : EventHeader)
      → ((d : Client) → 19 ≤ header.event_size → more header d ≡ more' header d)
      → behind_header more pos c header ≡ behind_header more' pos c header
  behind_congr more more' pos c header h =
      elim (Bool-cases (ltb (length packet) (pos + header.event_size))) [
        | inl cut ↦ rw cut refl
        | inr whole ↦ rw whole (
            bind_congr_Ensures (slice packet (pos + 19) (pos + header.event_size)) _ _
              (slice-length packet (pos + 19) (pos + header.event_size))
              λ event_data long.
                bind_congr (parse_event j hex_encode header.event_type event_data c) _ _ λ r.
                  hand_out_congr header r.1 (handed_out j hex_encode r.0) _ _
                    (h r.1 (omega (arith, long))))
      ]

  -- The fuel does not show: any two amounts that cover the bytes left give the same outcome.
  -- `next_event` starts with as many rounds as the packet has bytes.
  pub scan_packet_fuel :
      (f g pos : ℕ) (c : Client)
      → length packet ≤ pos + f
      → length packet ≤ pos + g
      → scan_packet j hex_encode f packet pos c ≡ scan_packet j hex_encode g packet pos c
  scan_packet_fuel zero g pos c hf hg =
      scan_end zero pos c (omega arith) ∙ sym (scan_end g pos c (omega arith))
  scan_packet_fuel (suc f) zero pos c hf hg =
      scan_end (suc f) pos c (omega arith) ∙ sym (scan_end zero pos c (omega arith))
  scan_packet_fuel (suc f) (suc g) pos c hf hg =
      elim (Bool-cases (leb (pos + 19) (length packet))) [
        | inr out ↦
            scan_end (suc f) pos c (ground arith) ∙ sym (scan_end (suc g) pos c (ground arith))
        | inl inside ↦
            scan_step f pos c (ground arith)
            ∙ bind_congr (read_header packet pos) _ _ (λ header.
              behind_congr (λ x. scan f (pos + x.event_size)) (λ x. scan g (pos + x.event_size)) pos
                c header
                (λ d big.
                  scan_packet_fuel f g (pos + header.event_size) d (omega arith) (omega arith)))
            ∙ sym (scan_step g pos c (ground arith))
      ]
