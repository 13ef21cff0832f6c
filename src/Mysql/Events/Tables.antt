-- ===== src/Mysql/Events/Tables.antt =====
-- mysql/binlog.rs: `parse_table_map`, and `parse_gtid` on short data.
use opencdc.Base.{
  ℕ, Bool, suc, ◌+◌, ◌*◌, ◌^◌, ◌<◌, ◌≤◌, ◌≡◌, refl, length, Bytes, Text, List, [], ◌∷◌, arith,
}
use opencdc.Base.{◌==◌, if◌then◌else◌, Outcome, done, panicked, some, ◌>>=◌, le→ltb, ap}
use opencdc.Base.{ensures_rules, Ensures, Ensures-done, Ensures-bind, Ensures-then, Ensures-eq_done}
use opencdc.Wire.Short.{index-short, index_then, index_among, slice_then}
use opencdc.Mysql.Packed.{le_u32, le_u64}
use opencdc.Mysql.Events.{TableMapEvent, Client, read_metas, parse_table_map, parse_gtid}

read_metas-length :
    (bytes : Bytes) (types : List ℕ) (p : ℕ)
    → Ensures (λ r. length r.0 ≡ length types) (read_metas bytes types p)
unfolding read_metas
read_metas-length bytes [] p = Ensures-done _ refl
read_metas-length bytes (t ∷ types) p =
    Ensures-bind _ _
      λ meta. Ensures-then _ _ (read_metas-length bytes types _) λ r l. Ensures-done _ (ap suc l)

-- The event is stored under its id, other tables and the last GTID stay, and each column has metadata.
abbrev pub Stored : Client → TableMapEvent × Client → Type 0
Stored c (event, c') =
    ((id : ℕ) → c'.tables id ≡ (if id == event.table_id then some event else c.tables id))
    × (c'.current_gtid ≡ c.current_gtid)
    × (length event.column_metas ≡ length event.column_types)

stored :
    (c : Client)
    → (id : ℕ) (db tb : Text) (types metas : List ℕ) (nulls : List Bool)
    → length metas ≡ length types
    → let event : TableMapEvent = record {
      table_id = id;
      database = db;
      table = tb;
      column_types = types;
      column_metas = metas;
      null_bits = nulls;
    } in
      Stored c (event, record c { tables = λ k. if k == id then some event else c.tables k })
stored c id db tb types metas nulls l = (λ k. refl, refl, l)

metas_then :
    {P : TableMapEvent × Client → Type 0} (bytes : Bytes) (types : List ℕ) (p : ℕ)
    (f : List ℕ × ℕ → Outcome Text (TableMapEvent × Client))
    → ((metas : List ℕ) (q : ℕ) → length metas ≡ length types → Ensures P (f (metas, q)))
    → Ensures P (read_metas bytes types p >>= f)
metas_then bytes types p f h = Ensures-then _ f (read_metas-length bytes types p) λ r l. h r.0 r.1 l

table_map-Stored : (bytes : Bytes) (c : Client) → Ensures (Stored c) (parse_table_map bytes c)
unfolding parse_table_map
table_map-Stored bytes c = search (ensures_rules, metas_then, stored) depth 16

-- A table map that is parsed is found under its id from then on; the other tables and the last GTID
-- stay as they were; and the event has one piece of metadata for each column type.
pub parse_table_map_stores :
    (bytes : Bytes) (c : Client) (event : TableMapEvent) (c' : Client)
    → parse_table_map bytes c ≡ done (event, c')
    → Stored c (event, c')
parse_table_map_stores bytes c event c' h =
    Ensures-eq_done (parse_table_map bytes c) (event, c') (table_map-Stored bytes c) h

le_u64-short : (bytes : Bytes) (i : ℕ) → length bytes ≤ i + 7 → le_u64 bytes i ≡ panicked
le_u64-short bytes i h = unfold le_u64 in low
  where
    high : le_u32 bytes (i + 4) ≡ panicked
    high =
        unfold le_u32 in
        index_then bytes (i + 4) _ λ a.
          index_then bytes (i + 4 + 1) _
            λ b. index_then bytes (i + 4 + 2) _ λ c. index-short bytes (i + 4 + 3) _ (omega arith)

    both : ℕ → Outcome Text ℕ
    both low = do high ← le_u32 bytes (i + 4); done (low + high * 2 ^ 32)

    low : (le_u32 bytes i >>= both) ≡ panicked
    low =
        unfold le_u32 in
        index_among bytes i _ both λ a. index_among bytes (i + 1) _ both λ b.
          index_among bytes (i + 2) _ both
            λ c. index_among bytes (i + 3) _ both λ d. rw (high, ◌>>=◌) refl

-- The guard of the GTID parser asks for 20 bytes, and the reads behind it go up to the 25th: with 20 to
-- 24 bytes the parser panics.
pub parse_gtid_short :
    {V : Type 0} (bytes : Bytes) (c : Client)
    → 20 ≤ length bytes
    → length bytes < 25
    → parse_gtid {V = V} bytes c ≡ panicked
unfolding parse_gtid
parse_gtid_short bytes c lo hi =
    rw (le→ltb (length bytes) 20 lo)
      (slice_then bytes 1 17 _ λ uuid. rw (le_u64-short bytes 17 (omega arith), ◌>>=◌) refl)
