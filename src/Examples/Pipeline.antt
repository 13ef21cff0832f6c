-- ===== src/Examples/Pipeline.antt =====
-- A pipeline with a filter and two counting sinks.
use opencdc.Base.{
  ℕ, ◌≡◌, refl, true, false, Bool-cases, inl, inr, Option, none, some, List, [], ◌∷◌, map, Text,
  text,
}
use opencdc.Base.{if◌then◌else◌, done, failed, arith, replicate, not}
use opencdc.Base.Int.{pos}
use opencdc.Core.Error.{other, display}
use opencdc.Core.Operation.{is_dml, is_snapshot}
use opencdc.Core.ConnectorType
use opencdc.Core.SourceInfo
use opencdc.Core.ChangeEvent.{ChangeEvent, create_event, snapshot_event}
use opencdc.Pipeline.Error
use opencdc.Pipeline.Error.{PipelineError, stopped}
use opencdc.Pipeline.Transform.{
  only_dml, exclude_snapshot, filter_event, filter_transform, filter_event_agrees,
}
use opencdc.Pipeline.Sink.{null_sink, null_write, NullSink}
use opencdc.Pipeline.Run.{
  ConnectorOps, Pipeline, returned, apply, run_started, stream_from_offset, after_stream, run,
}
use opencdc.Pipeline.Delivery.{survivors, feed, run-feed}
use opencdc.Pipeline.Channel.{send_all, send, channel}
use opencdc.Pipeline.Flag.{run_again}

abbrev Event : Type 0
Event = ChangeEvent Text ℕ

abbrev source : SourceInfo.SourceInfo Text
source = SourceInfo.new (pos 1) ConnectorType.postgres (text "db") none (text "t")

abbrev row_read : Event
row_read = snapshot_event (pos 1) (text "1") source

abbrev row_created : Event
row_created = create_event (pos 2) (text "2") source

-- It sends one event in a snapshot and two in a stream, and then its stream fails for want of an offset.
abbrev two_steps : ConnectorOps Event ℕ
two_steps = record {
  Connector = ℕ;
  snapshot = λ n tables. (n, row_read ∷ [], done 7);
  stream = λ n offset. elim offset [
    | some o ↦ (o, row_created ∷ row_read ∷ [], done tt)
    | none ↦ (n, row_created ∷ [], failed (other (text "no offset")))
  ];
  stop = λ n. (n, done tt);
}

abbrev pipeline : Pipeline two_steps (null_sink Event)
pipeline = record {
  name = text "p";
  connector = 3;
  transforms = filter_transform only_dml ∷ [];
  sinks = record { name = text "a"; count = 0 } ∷ record { name = text "b"; count = 5 } ∷ [];
  running = false;
}

abbrev kept : Event → Option Event
kept e = if is_dml e.payload.op then some e else none

applied_kept : (e : Event) → apply pipeline.transforms (some e) ≡ done (kept e)
unfolding apply filter_transform
applied_kept e = elim (Bool-cases (is_dml e.payload.op)) [
  | inl dml ↦ rw ((filter_event_agrees e).0, dml) refl
  | inr other_op ↦ rw ((filter_event_agrees e).0, other_op) refl
]

counted : (s : NullSink) (es : List Event) → (null_write s es).1 ≡ done tt
unfolding null_write
counted s es = refl

run-feed_example :
    run two_steps (null_sink Event) pipeline (some (text "t" ∷ []))
    ≡ returned
        (record pipeline {
          connector = 7;
          sinks =
              map
                (feed (null_sink Event) (survivors kept (row_read ∷ row_created ∷ row_read ∷ [])))
                pipeline.sinks;
          running = true;
        })
        (done tt)
run-feed_example =
    run-feed two_steps (null_sink Event) counted pipeline (text "t" ∷ []) 7 3 7 (row_read ∷ [])
      (row_created ∷ row_read ∷ []) kept applied_kept refl refl refl (omega arith) (omega arith)

-- Of the three events one is a row change.
fed_counts :
    map
      (feed (null_sink Event) (survivors kept (row_read ∷ row_created ∷ row_read ∷ [])))
      pipeline.sinks
    ≡ record { name = text "a"; count = 1 } ∷ record { name = text "b"; count = 6 } ∷ []
unfolding null_write is_dml snapshot_event create_event
fed_counts = refl

filter_example :
    (filter_event only_dml row_read
      ≡ (if is_dml row_read.payload.op then done (some row_read) else done none))
    × (filter_event exclude_snapshot row_read
        ≡ (if not (is_snapshot row_read.payload.op) then done (some row_read) else done none))
filter_example = filter_event_agrees row_read

abbrev ended : Pipeline two_steps (null_sink Event)
ended = record pipeline { running = true }

run_again_example :
    run two_steps (null_sink Event) ended (some [])
    ≡ returned ended (failed (stopped (text "pipeline is already running")))
run_again_example =
    run_again two_steps (null_sink Event) pipeline ended
      (failed (Error.source (text "stream failed: no offset"))) (some []) stream_failed
  where
    stream_failed :
        run two_steps (null_sink Event) pipeline none
        ≡ returned ended (failed (Error.source (text "stream failed: no offset")))
    stream_failed =
        unfold run run_started stream_from_offset after_stream display send_all send channel in refl

abbrev many : List ℕ
many = replicate 1025 0

abbrev busy : ConnectorOps ℕ ℕ
busy = record {
  Connector = ℕ;
  snapshot = λ n tables. (n, many, done 7);
  stream = λ n offset. (n, many, done tt);
  stop = λ n. (n, done tt);
}

abbrev idle : Pipeline busy (null_sink ℕ)
idle = record { name = []; connector = 0; transforms = []; sinks = []; running = false }
