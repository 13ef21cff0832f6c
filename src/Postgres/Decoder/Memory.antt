-- ===== src/Postgres/Decoder/Memory.antt =====
-- postgres/decoder.rs: the list of relations, and reads on short data.
use opencdc.Base.{ℕ, ◌+◌, ◌<◌, ◌≤◌, ◌≡◌, refl, ap, [], ◌∷◌, ◌++◌, ◌⊎◌, inl, inr, ◌==◌}
use opencdc.Base.{
  length, get_elem?, Option, none, some, Bytes, arith, Outcome, done, failed, panicked, ◌>>=◌,
}
use opencdc.Base.{Ensures, Ensures-done, Ensures-weaken, ensures_rules, find?-append_some}
use opencdc.Base.Int.{ℤ}
use opencdc.Core.Error.{Error}
use opencdc.Wire.{index}
use opencdc.Wire.Short.{index-short, index_then}
use opencdc.Postgres.Decoder.Read.{read_i32_be, read_i64_be}
use opencdc.Postgres.Decoder.Messages.{
  PgOutputDecoder, PgOutputMessage, RelationMessage, get_relation, decode, decode_begin,
}

-- Decoding adds one relation at the end, or none.
abbrev Grows : PgOutputDecoder → Option PgOutputMessage × PgOutputDecoder → Type 0
Grows d (m, d') =
    (d'.relations ≡ d.relations)
    ⊎ ((r : RelationMessage) × (d'.relations ≡ d.relations ++ (r ∷ [])))

keeps : (d : PgOutputDecoder) (m : Option PgOutputMessage) → Grows d (m, d)
keeps d m = inl refl

adds :
    (d : PgOutputDecoder) (m : Option PgOutputMessage) (r : RelationMessage)
    → Grows d (m, record d { relations = d.relations ++ (r ∷ []) })
adds d m r = inr (r, refl)

decode-Grows : (d : PgOutputDecoder) (bytes : Bytes) → Ensures (Grows d) (decode d bytes)
unfolding decode
decode-Grows d [] = Ensures-done _ (keeps d none)
decode-Grows d (t ∷ rest) = search (ensures_rules, keeps d, adds d) depth 12

-- Each relation found in `d` is found in `d'`.
abbrev pub Remembers : PgOutputDecoder → PgOutputDecoder → Type 0
Remembers d d' =
    (oid : ℕ) (r : RelationMessage) → get_relation d oid ≡ some r → get_relation d' oid ≡ some r

Remembers-grown :
    (d d' : PgOutputDecoder) (m : Option PgOutputMessage) → Grows d (m, d') → Remembers d d'
unfolding get_relation
Remembers-grown d d' m (inl same) oid r known = rw same known
Remembers-grown d d' m (inr (new, grown)) oid r known =
    rw grown (find?-append_some (λ q. q.oid == oid) d.relations (new ∷ []) r known)

-- A relation that the decoder remembers stays the answer for its oid, whatever is decoded next: also
-- when a message describes the same oid anew.
pub decode-Remembers :
    (d : PgOutputDecoder) (bytes : Bytes)
    → Ensures (λ (r : Option PgOutputMessage × PgOutputDecoder). Remembers d r.1) (decode d bytes)
decode-Remembers d bytes =
    Ensures-weaken (decode d bytes) (λ (m, d'). Remembers-grown d d' m) (decode-Grows d bytes)

-- The reads return at the given offset, or panic; they have no error of their own.
abbrev Moves : ℕ → Outcome Error (ℤ × ℕ) → Type 0
Moves j (done (z, k)) = k ≡ j
Moves j (failed e) = ⊥
Moves j panicked = Unit

Moves-bind :
    (bytes : Bytes) (i j : ℕ) (f : ℕ → Outcome Error (ℤ × ℕ))
    → ((b : ℕ) → Moves j (f b))
    → Moves j (index bytes i >>= f)
unfolding index
Moves-bind bytes i j f h = go (get_elem? bytes i)
  where
    go : (o : Option ℕ) → Moves j ((elim o [ none ↦ panicked | some b ↦ done b ]) >>= f)
    go none = tt
    go (some b) = h b

read_i64_be-Moves : (bytes : Bytes) (i : ℕ) → Moves (i + 8) (read_i64_be bytes i)
unfolding read_i64_be
read_i64_be-Moves bytes i = Moves-bind bytes i (i + 8) _ λ a.
    Moves-bind bytes (i + 1) (i + 8) _ λ b. Moves-bind bytes (i + 2) (i + 8) _ λ c.
      Moves-bind bytes (i + 3) (i + 8) _ λ d. Moves-bind bytes (i + 4) (i + 8) _ λ e.
        Moves-bind bytes (i + 5) (i + 8) _
          λ f. Moves-bind bytes (i + 6) (i + 8) _ λ g. Moves-bind bytes (i + 7) (i + 8) _ λ k. refl

read_i32_be-short :
    {B : Type 0} (bytes : Bytes) (i : ℕ) (f : ℤ × ℕ → Outcome Error B)
    → length bytes ≤ i + 3
    → (read_i32_be bytes i >>= f) ≡ panicked
unfolding read_i32_be
read_i32_be-short {B} bytes i f h = ap (λ o. o >>= f) short
  where
    short : read_i32_be bytes i ≡ panicked
    short = index_then bytes i _ λ a.
        index_then bytes (i + 1) _
          λ b. index_then bytes (i + 2) _ λ c. index-short bytes (i + 3) _ h

-- The first read panics as a whole, or what is behind it does.
read_i64_be_then :
    {B : Type 0} (bytes : Bytes) (i : ℕ) (f : ℤ × ℕ → Outcome Error B)
    → ((z : ℤ) → f (z, i + 8) ≡ panicked)
    → (read_i64_be bytes i >>= f) ≡ panicked
read_i64_be_then bytes i f h = go (read_i64_be bytes i) (read_i64_be-Moves bytes i)
  where
    go : (o : Outcome Error (ℤ × ℕ)) → Moves (i + 8) o → (o >>= f) ≡ panicked
    go (done (z, j)) e = rw e (h z)
    go (failed e) m = absurd m
    go panicked m = refl

-- A begin message with fewer than its 20 bytes panics: the reads are not checked.
pub decode-begin_short :
    (d : PgOutputDecoder) (rest : Bytes) → length rest < 20 → decode d (b'B' ∷ rest) ≡ panicked
unfolding decode
decode-begin_short d rest h = rw (short, ◌>>=◌)
  where
    short : decode_begin rest ≡ panicked
    short =
        unfold decode_begin in
        read_i64_be_then rest 0 _
          λ lsn. read_i64_be_then rest 8 _ λ ts. read_i32_be-short rest 16 _ (omega arith)
