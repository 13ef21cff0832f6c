-- ===== src/Pipeline/Sink.antt =====
-- crates/opencdc-pipeline/src/sink.rs: the trait of sinks, and the sink that only counts. A sink's
-- methods may change it even when they fail.
use opencdc.Base.{ℕ, ◌+◌, ◌%◌, ◌^◌, List, Text, length, Outcome, done}
use opencdc.Pipeline.Error.{PipelineError}

pub record SinkOps (Event : Type 0) : Type 1 where
  pub Sink : Type 0
  pub write : Sink → List Event → Sink × Outcome PipelineError Unit
  pub close : Sink → Sink × Outcome PipelineError Unit

pub record NullSink : Type 0 where
  pub name : Text
  pub count : ℕ

-- `self.count += events.len() as u64`, which wraps in a release build
unfoldable pub null_write :
    {Event : Type 0} → NullSink → List Event → NullSink × Outcome PipelineError Unit
null_write s events = (record s { count = (s.count + length events) % 2 ^ 64 }, done tt)

-- `close` is the trait's, which flushes, and that does nothing.
abbrev pub null_sink : (Event : Type 0) → SinkOps Event
null_sink Event = record { Sink = NullSink; write = null_write; close = λ s. (s, done tt) }
