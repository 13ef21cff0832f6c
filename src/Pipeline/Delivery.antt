-- ===== src/Pipeline/Delivery.antt =====
-- pipeline.rs: what a run writes to the sinks.
use opencdc.Base.{
  ◌≤◌, ◌≡◌, refl, ◌∙◌, ap, true, false, Option, none, some, List, [], ◌∷◌, ◌++◌, map, Text, length,
}
use opencdc.Base.{Outcome, done}
use opencdc.Pipeline.Error.{PipelineError}
use opencdc.Pipeline.Sink.{SinkOps}
use opencdc.Pipeline.Channel.{send_all_fits}
use opencdc.Pipeline.Transform.{Transform}
use opencdc.Pipeline.Run.{
  ConnectorOps, capacity, Pipeline, returned, apply, dispatch, process_event, drain,
  stream_from_offset, after_stream, after_snapshot, after_drain, run_started, run,
}

abbrev in_front : {Event : Type 0} → Option Event → List Event → List Event
in_front none es = es
in_front (some e) es = e ∷ es

-- The events that pass, in order.
abbrev pub survivors : {Event : Type 0} → (Event → Option Event) → List Event → List Event
survivors keep [] = []
survivors keep (e ∷ es) = in_front (keep e) (survivors keep es)

module _ {Event : Type 0} (S : SinkOps Event) where
  -- A sink that is written the events, one by one.
  abbrev pub feed : List Event → S.Sink → S.Sink
  feed [] s = s
  feed (e ∷ es) s = feed es (S.write s (e ∷ [])).0

module _ {Event Offset : Type 0} (C : ConnectorOps Event Offset) (S : SinkOps Event)
    (written : (s : S.Sink) (es : List Event) → (S.write s es).1 ≡ done tt) where
  abbrev Delivered : Type 0
  Delivered = List S.Sink × Outcome PipelineError Unit

  dispatch-feed :
      (e : Event) (sinks : List S.Sink)
      → dispatch C S e sinks ≡ (map (λ s. (S.write s (e ∷ [])).0) sinks, done tt)
  unfolding dispatch
  dispatch-feed e [] = refl
  dispatch-feed e (s ∷ ss) = rw (written s (e ∷ []), dispatch, dispatch-feed e ss) refl

  module _ (ts : List (Transform Event)) (keep : Event → Option Event)
      (applied : (e : Event) → apply ts (some e) ≡ done (keep e)) where
    map_id : (sinks : List S.Sink) → map (λ s. s) sinks ≡ sinks
    map_id [] = refl
    map_id (s ∷ ss) = ap (λ r. s ∷ r) (map_id ss)

    map-map :
        (f g : S.Sink → S.Sink) (sinks : List S.Sink)
        → map g (map f sinks) ≡ map (λ s. g (f s)) sinks
    map-map f g [] = refl
    map-map f g (s ∷ ss) = ap (λ r. g (f s) ∷ r) (map-map f g ss)

    process_kept :
        (e : Event) (sinks : List S.Sink) (o : Option Event)
        → keep e ≡ o
        → process_event C S ts e sinks
          ≡ (elim o [ none ↦ sinks | some k ↦ map (λ s. (S.write s (k ∷ [])).0) sinks ], done tt)
    unfolding process_event
    process_kept e sinks none h = rw (applied e, process_event, h) refl
    process_kept e sinks (some k) h = rw (applied e, process_event, h) (dispatch-feed k sinks)

    drain-feed :
        (es : List Event) (sinks : List S.Sink)
        → drain C S ts es sinks ≡ (map (feed S (survivors keep es)) sinks, done tt)
    unfolding drain
    drain-feed [] sinks = rw (map_id sinks) refl
    drain-feed (e ∷ es) sinks = go (keep e) refl (drain-feed es)
      where
        go :
            (o : Option Event)
            → keep e ≡ o
            → ((ss : List S.Sink)
                → drain C S ts es ss ≡ (map (feed S (survivors keep es)) ss, done tt))
            → drain C S ts (e ∷ es) sinks ≡ (map (feed S (survivors keep (e ∷ es))) sinks, done tt)
        go none h rest =
            rw (process_kept e sinks none h, drain, process_kept e sinks none h, h) (rest sinks)
        go (some k) h rest =
            rw (process_kept e sinks (some k) h, drain, process_kept e sinks (some k) h, h)
              (rest (map (λ s. (S.write s (k ∷ [])).0) sinks)
                ∙ ap (λ r. (r, done tt)) (map-map _ (feed S (survivors keep es)) sinks))

    feed_append :
        (es bs : List Event) (s : S.Sink)
        → feed S (survivors keep bs) (feed S (survivors keep es) s)
          ≡ feed S (survivors keep (es ++ bs)) s
    feed_append [] bs s = refl
    feed_append (a ∷ es) bs s = go (keep a) (feed_append es bs)
      where
        go :
            (o : Option Event)
            → ((t : S.Sink)
                → feed S (survivors keep bs) (feed S (survivors keep es) t)
                  ≡ feed S (survivors keep (es ++ bs)) t)
            → feed S (survivors keep bs) (feed S (in_front o (survivors keep es)) s)
              ≡ feed S (in_front o (survivors keep (es ++ bs))) s
        go none rest = rest s
        go (some k) rest = rest (S.write s (k ∷ [])).0

    map_congr :
        (f g : S.Sink → S.Sink)
        → ((s : S.Sink) → f s ≡ g s)
        → (sinks : List S.Sink) → map f sinks ≡ map g sinks
    map_congr f g h [] = refl
    map_congr f g h (s ∷ ss) = rw (h s, map_congr f g h ss) refl

    after_stream-feed :
        (p : Pipeline C S) (c : C.Connector) (es : List Event)
        → p.transforms ≡ ts
        → length es ≤ capacity
        → after_stream C S p (c, es, done tt)
          ≡ returned
              (record p { connector = c; sinks = map (feed S (survivors keep es)) p.sinks })
              (done tt)
    unfolding after_stream
    after_stream-feed p c es t fits =
        rw (after_stream, send_all_fits capacity es fits, t, drain-feed es p.sinks) refl

    after_snapshot-feed :
        (p : Pipeline C S) (c : C.Connector) (es : List Event) (offset : Offset)
        → p.transforms ≡ ts
        → length es ≤ capacity
        → after_snapshot C S p (c, es, done offset)
          ≡ stream_from_offset C S
              (record p { connector = c; sinks = map (feed S (survivors keep es)) p.sinks })
              (some offset)
    unfolding after_snapshot after_drain
    after_snapshot-feed p c es offset t fits =
        rw (after_snapshot, send_all_fits capacity es fits, t, drain-feed es p.sinks) refl

  -- A pipeline that is not running, whose connector's snapshot and stream succeed with at most 1024
  -- events each, whose transforms do not fail and whose sinks do not fail: a run with a snapshot returns
  -- without an error, and every sink has been written the events that pass the transforms, one by one,
  -- first those of the snapshot and then those of the stream, in their order.
  pub run-feed :
      (p : Pipeline C S) (tables : List Text) (offset : Offset) (c c' : C.Connector)
      (snap streamed : List Event) (keep : Event → Option Event)
      → ((e : Event) → apply p.transforms (some e) ≡ done (keep e))
      → p.running ≡ false
      → C.snapshot p.connector tables ≡ (c, snap, done offset)
      → C.stream c (some offset) ≡ (c', streamed, done tt)
      → length snap ≤ capacity
      → length streamed ≤ capacity
      → run C S p (some tables)
        ≡ returned
            (record p {
              connector = c';
              sinks = map (feed S (survivors keep (snap ++ streamed))) p.sinks;
              running = true;
            })
            (done tt)
  unfolding run run_started stream_from_offset
  run-feed p tables offset c c' snap streamed keep applied idle snapped sent fits fits' =
      rw (idle, snapped)
        (after_snapshot-feed p.transforms keep applied (record p { running = true }) c snap offset
            refl fits
          ∙ ap (after_stream C S _) sent
          ∙ after_stream-feed p.transforms keep applied _ c' streamed refl fits'
          ∙ ap
              (λ sinks.
                returned (record p { connector = c'; sinks = sinks; running = true }) (done tt))
              (map-map p.transforms keep applied _ _ p.sinks
                ∙ map_congr p.transforms keep applied _ _
                    (feed_append p.transforms keep applied snap streamed) p.sinks))
