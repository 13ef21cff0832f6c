-- ===== src/Postgres/Stream/Laws.antt =====
-- postgres/replication.rs: the streamer on the chunks of a stream.
use opencdc.Base.{
  ℕ, ◌≡◌, refl, ap, ◌∙◌, sym, List, [], ◌∷◌, ◌++◌, map, Option, none, some, Bytes, Text, All,
}
use opencdc.Base.{Outcome, done, failed, panicked, ◌==◌}
use opencdc.Base.{
  Ensures, Ensures-done, Ensures-failed, Ensures-if, Ensures-then, Ensures-weaken, Ensures-eq_done,
}
use opencdc.Base.Int.{ℤ}
use opencdc.Core.Error.{Error}
use opencdc.Core.Json.{SerdeJson}
use opencdc.Postgres.Decoder.{
  PgOutputDecoder, PgOutputMessage, RelationMessage, get_relation, decode,
}
use opencdc.Postgres.Decoder.Memory.{Remembers, decode-Remembers}
use opencdc.Postgres.Protocol.{
  WireMessage, begin_of, commit_of, relation_of, insert_of, update_of, update_old_of, delete_of,
  truncate_of, encode, Fits,
}
use opencdc.Postgres.Protocol.RoundTrip.{decode-encode}
use opencdc.Postgres.Stream
use opencdc.Postgres.Stream.Meaning
use opencdc.Postgres.Stream.{Chunk, chunk, stream_error}
use mathlib.Core.List.{append_assoc, append-nil}

module _ (j : SerdeJson) (Schema : Type 0) (database : Text) (now : ℤ) where
  abbrev S : Type 0
  S = Stream.Streamer j Schema database now

  abbrev process_chunk : Bytes → S → Outcome Error S
  process_chunk = Stream.process_chunk j Schema database now

  abbrev process_stream : List Chunk → S → Outcome Error S
  process_stream = Stream.process_stream j Schema database now

  abbrev row_event : PgOutputDecoder → PgOutputMessage → List (Stream.Event j Schema database now)
  row_event = Stream.row_event j Schema database now

  abbrev handled : S → WireMessage → S
  handled = Meaning.handled j Schema database now

  chunk_step :
      (m : WireMessage) (s : S) → Fits m → process_chunk (encode m ++ []) s ≡ done (handled s m)
  unfolding Stream.process_chunk Stream.handle_decoded
  chunk_step (begin_of lsn ts xid) s f = rw (decode-encode s.decoder (begin_of lsn ts xid) [] f)
  chunk_step (commit_of a b c e) s f = rw (decode-encode s.decoder (commit_of a b c e) [] f)
  chunk_step (relation_of a b c e g) s f = rw (decode-encode s.decoder (relation_of a b c e g) [] f)
  chunk_step (insert_of a b) s f = rw (decode-encode s.decoder (insert_of a b) [] f)
  chunk_step (update_of a b) s f = rw (decode-encode s.decoder (update_of a b) [] f)
  chunk_step (update_old_of a b c e) s f = rw (decode-encode s.decoder (update_old_of a b c e) [] f)
  chunk_step (delete_of a b c) s f = rw (decode-encode s.decoder (delete_of a b c) [] f)
  chunk_step (truncate_of a b) s f = rw (decode-encode s.decoder (truncate_of a b) [] f)

  pub process_stream-encode :
      (ms : List WireMessage) (s : S)
      → All Fits ms
      → process_stream (map (λ m. chunk (encode m)) ms) s
        ≡ done (Meaning.follow_all j Schema database now s ms)
  unfolding Stream.process_stream
  process_stream-encode [] s f = refl
  process_stream-encode (m ∷ ms) s f = rw (← append-nil (encode m)) (
      rw (chunk_step m s f.0, Meaning.handled-follow j Schema database now s m)
        (process_stream-encode ms (Meaning.follow j Schema database now s m) f.1))

  -- A chunk that returned has added its events behind those sent before, and forgotten no relation.
  abbrev Extends : S → S → Type 0
  Extends s s' =
      ((new : List (Stream.Event j Schema database now)) × (s'.sent ≡ s.sent ++ new))
      × ((oid : ℕ) (r : RelationMessage)
          → get_relation s.decoder oid ≡ some r
          → get_relation s'.decoder oid ≡ some r)

  Extends-refl : (s : S) → Extends s s
  Extends-refl s = (([], sym (append-nil s.sent)), λ oid r k. k)

  Extends-trans : (s t u : S) → Extends s t → Extends t u → Extends s u
  Extends-trans s t u ((a, e), f) ((b, g), h) =
      ((a ++ b, g ∙ ap (λ l. l ++ b) e ∙ append_assoc s.sent a b), λ oid r k. h oid r (f oid r k))

  handle-Extends :
      (s : S) (o : Outcome Error (Option PgOutputMessage × PgOutputDecoder))
      → Ensures (λ r. Remembers s.decoder r.1) o
      → Ensures (Extends s) (Stream.handle_decoded j Schema database now s o)
  unfolding Stream.handle_decoded
  handle-Extends s (done (some m, d)) h = record { holds = ((row_event d m, refl), h.holds) }
  handle-Extends s (done (none, d)) h = record { holds = (([], sym (append-nil s.sent)), h.holds) }
  handle-Extends s (failed x) h = record { holds = tt }
  handle-Extends s panicked h = record { holds = tt }

  keepalive-Extends :
      (bytes : Bytes) (s : S) → Extends s (Stream.process_keepalive j Schema database now bytes s)
  unfolding Stream.process_keepalive
  keepalive-Extends (k ∷ a ∷ b ∷ c ∷ d ∷ e ∷ f ∷ g ∷ h ∷ rest) s = Extends-refl s
  keepalive-Extends _ s = Extends-refl s

  chunk-Extends : (bytes : Bytes) (s : S) → Ensures (Extends s) (process_chunk bytes s)
  unfolding Stream.process_chunk
  chunk-Extends [] s = Ensures-done s (Extends-refl s)
  chunk-Extends (b ∷ rest) s =
      Ensures-if (b == b'k') _ _ (Ensures-done _ (keepalive-Extends (b ∷ rest) s))
        (handle-Extends s (decode s.decoder (b ∷ rest)) (decode-Remembers s.decoder (b ∷ rest)))

  stream-Extends : (chunks : List Chunk) (s : S) → Ensures (Extends s) (process_stream chunks s)
  unfolding Stream.process_stream
  stream-Extends [] s = Ensures-done s (Extends-refl s)
  stream-Extends (chunk bytes ∷ rest) s =
      Ensures-then (process_chunk bytes s) _ (chunk-Extends bytes s) λ t e.
        Ensures-weaken (process_stream rest t) (λ u. Extends-trans s t u e) (stream-Extends rest t)
  stream-Extends (stream_error e ∷ rest) s = Ensures-failed _

  -- Whatever the chunks hold: if the stream ends without an error, the events sent before are kept in
  -- front of the new ones, and the relation that was known for an oid is still the one that is used for
  -- it, also where a later relation message describes that oid anew.
  pub process_stream_extends :
      (chunks : List Chunk) (s s' : S) (oid : ℕ) (r : RelationMessage)
      → process_stream chunks s ≡ done s'
      → get_relation s.decoder oid ≡ some r
      → ((new : List (Stream.Event j Schema database now)) × (s'.sent ≡ s.sent ++ new))
        × (get_relation s'.decoder oid ≡ some r)
  process_stream_extends chunks s s' oid r h known =
      let extended = Ensures-eq_done (process_stream chunks s) s' (stream-Extends chunks s) h in
      (extended.0, extended.1 oid r known)
