-- ===== src/Pipeline/Run.antt =====
-- crates/opencdc-pipeline/src/pipeline.rs: a pipeline and its runs. The connector is one that sends
-- its events before its method returns; the pipeline reads the channel only after that.
use opencdc.Base.{ℕ, Bool, true, false, Option, none, some, List, [], ◌∷◌, ◌++◌, Text, text}
use opencdc.Base.{if◌then◌else◌, Outcome, done, failed, panicked, ◌>>=◌}
use opencdc.Core.Error.{Error}
use opencdc.Core.Error
use opencdc.Pipeline.Error.{PipelineError, sink, transform, source, stopped, display, map_err}
use opencdc.Pipeline.Transform.{Transform}
use opencdc.Pipeline.Sink.{SinkOps}
use opencdc.Pipeline.Channel.{channel, send_all}

-- The trait of connectors, as a pipeline calls it: the connector afterwards, the events that it sends
-- into the channel, in order, and its result.
pub record ConnectorOps (Event Offset : Type 0) : Type 1 where
  pub Connector : Type 0
  pub snapshot : Connector → List Text → Connector × List Event × Outcome Error Offset
  pub stream : Connector → Option Offset → Connector × List Event × Outcome Error Unit
  pub stop : Connector → Connector × Outcome Error Unit

-- `channel(1024)`
abbrev pub capacity : ℕ
capacity = 1024

-- The loop over the transforms; it ends early once the event is dropped.
unfoldable pub apply :
    {Event : Type 0} → List (Transform Event) → Option Event → Outcome PipelineError (Option Event)
apply [] event = done event
apply (t ∷ ts) none = done none
apply (t ∷ ts) (some event) = do
  event ← map_err (λ e. transform (display e)) (t.transform event)
  apply ts event

module _ {Event Offset : Type 0} (C : ConnectorOps Event Offset) (S : SinkOps Event) where
  open C use {Connector, snapshot, stream}
  open S use {Sink, write, close}

  pub record Pipeline : Type 0 where
    pub name : Text
    pub connector : Connector
    pub transforms : List (Transform Event)
    pub sinks : List Sink
    pub running : Bool

  -- How a call ends: it returns, or it waits for ever, for room in a channel that nobody reads.
  pub data Ran : Type 0 where
    returned : Pipeline → Outcome PipelineError Unit → Ran
    waiting : Ran

  unfoldable pub new : Text → Connector → Pipeline
  new name connector = record {
    name = name;
    connector = connector;
    transforms = [];
    sinks = [];
    running = false;
  }

  unfoldable pub add_transform : Transform Event → Pipeline → Pipeline
  add_transform t p = record p { transforms = p.transforms ++ (t ∷ []) }

  unfoldable pub add_sink : Sink → Pipeline → Pipeline
  add_sink s p = record p { sinks = p.sinks ++ (s ∷ []) }

  -- The loop over the sinks; the first failure ends it.
  unfoldable pub dispatch : Event → List Sink → List Sink × Outcome PipelineError Unit
  dispatch event [] = ([], done tt)
  dispatch event (s ∷ ss) = elim (write s (event ∷ [])).1 [
    | done u ↦ ((write s (event ∷ [])).0 ∷ (dispatch event ss).0, (dispatch event ss).1)
    | failed e ↦ ((write s (event ∷ [])).0 ∷ ss, failed (sink (display e)))
    | panicked ↦ ((write s (event ∷ [])).0 ∷ ss, panicked)
  ]

  unfoldable pub process_event :
      List (Transform Event) → Event → List Sink → List Sink × Outcome PipelineError Unit
  process_event ts event sinks = elim (apply ts (some event)) [
    | done none ↦ (sinks, done tt)
    | done (some event) ↦ dispatch event sinks
    | failed e ↦ (sinks, failed e)
    | panicked ↦ (sinks, panicked)
  ]

  -- `while let Some(event) = rx.recv().await`
  unfoldable pub drain :
      List (Transform Event) → List Event → List Sink → List Sink × Outcome PipelineError Unit
  drain ts [] sinks = (sinks, done tt)
  drain ts (event ∷ events) sinks = elim (process_event ts event sinks).1 [
    | done u ↦ drain ts events (process_event ts event sinks).0
    | failed e ↦ ((process_event ts event sinks).0, failed e)
    | panicked ↦ ((process_event ts event sinks).0, panicked)
  ]

  -- What `stream_from_offset` does with what the connector did: its method ends only if all its sends
  -- do, and the channel is received from only behind it.
  unfoldable pub after_stream : Pipeline → Connector × List Event × Outcome Error Unit → Ran
  after_stream p (connector, events, result) =
      let q : Pipeline = record p { connector = connector } in
      elim (send_all events (channel capacity)) [
        | none ↦ waiting
        | some stream_rx ↦ elim result [
          | failed e ↦ returned q (failed (source (text "stream failed: " ++ Error.display e)))
          | panicked ↦ returned q panicked
          | done u ↦
              returned (record q { sinks = (drain q.transforms stream_rx.queue q.sinks).0 })
                (drain q.transforms stream_rx.queue q.sinks).1
        ]
      ]

  unfoldable pub stream_from_offset : Pipeline → Option Offset → Ran
  stream_from_offset p offset = after_stream p (stream p.connector offset)

  -- The rest of `run` behind the loop over the snapshot's events
  unfoldable pub after_drain : Pipeline → Offset → List Sink × Outcome PipelineError Unit → Ran
  after_drain p offset (sinks, done u) =
      stream_from_offset (record p { sinks = sinks }) (some offset)
  after_drain p offset (sinks, failed e) = returned (record p { sinks = sinks }) (failed e)
  after_drain p offset (sinks, panicked) = returned (record p { sinks = sinks }) panicked

  -- The rest of `run` behind the connector's snapshot
  unfoldable pub after_snapshot : Pipeline → Connector × List Event × Outcome Error Offset → Ran
  after_snapshot p (connector, events, result) =
      let q : Pipeline = record p { connector = connector } in
      elim (send_all events (channel capacity)) [
        | none ↦ waiting
        | some snap_stream ↦ elim result [
          | failed e ↦
              returned (record q { running = false })
                (failed (source (text "snapshot failed: " ++ Error.display e)))
          | panicked ↦ returned q panicked
          | done offset ↦ after_drain q offset (drain q.transforms snap_stream.queue q.sinks)
        ]
      ]

  -- `run` of a pipeline that is not running yet, with its flag set
  unfoldable pub run_started : Pipeline → Option (List Text) → Ran
  run_started p none = stream_from_offset p none
  run_started p (some tables) = after_snapshot p (snapshot p.connector tables)

  unfoldable pub run : Pipeline → Option (List Text) → Ran
  run p tables =
      if p.running
      then returned p (failed (stopped (text "pipeline is already running")))
      else run_started (record p { running = true }) tables

  -- The loop that closes the sinks; the first failure ends it.
  unfoldable pub close_all : List Sink → List Sink × Outcome PipelineError Unit
  close_all [] = ([], done tt)
  close_all (s ∷ ss) = elim (close s).1 [
    | done u ↦ ((close s).0 ∷ (close_all ss).0, (close_all ss).1)
    | failed e ↦ ((close s).0 ∷ ss, failed (sink (text "close error: " ++ display e)))
    | panicked ↦ ((close s).0 ∷ ss, panicked)
  ]

  -- The rest of `stop` behind the closing of the sinks
  unfoldable pub after_close :
      Pipeline → List Sink × Outcome PipelineError Unit → Pipeline × Outcome PipelineError Unit
  after_close p (sinks, failed e) = (record p { sinks = sinks }, failed e)
  after_close p (sinks, panicked) = (record p { sinks = sinks }, panicked)
  after_close p (sinks, done u) =
      let ended = C.stop p.connector in
      (
        record p { sinks = sinks; connector = ended.0 },
        map_err (λ e. source (text "stop error: " ++ Error.display e)) ended.1,
      )

  unfoldable pub stop : Pipeline → Pipeline × Outcome PipelineError Unit
  stop p = after_close (record p { running = false }) (close_all p.sinks)
