-- ===== src/Pipeline/Flag.antt =====
-- pipeline.rs: the `running` flag over calls of `run` and `stop`, and full channels.
use opencdc.Base.{
  ◌≡◌, refl, Bool, true, false, Bool-cases, inl, inr, Option, none, List, Text, text,
}
use opencdc.Base.{Outcome, done, failed, panicked, Option-cases}
use opencdc.Pipeline.Channel.{channel, send_all}
use mathlib.Core.Path.{subst}
use opencdc.Core.Error.{Error}
use opencdc.Pipeline.Error.{PipelineError, stopped}
use opencdc.Pipeline.Sink.{SinkOps}
use opencdc.Pipeline.Run.{
  ConnectorOps, capacity, Pipeline, Ran, returned, waiting, close_all, stream_from_offset,
  after_stream, run_started, run, after_close, stop,
}

module _ {Event Offset : Type 0} (C : ConnectorOps Event Offset) (S : SinkOps Event) where
  -- If the call returns, it leaves the flag as given.
  abbrev Leaves : Bool → Ran C S → Type 0
  Leaves b (returned q r) = q.running ≡ b
  Leaves b waiting = Unit

  after_stream-Leaves :
      (p : Pipeline C S) (c : C.Connector) (es : List Event) (r : Outcome Error Unit)
      → Leaves p.running (after_stream C S p (c, es, r))
  unfolding after_stream
  after_stream-Leaves p c es (done u) = elim (Option-cases (send_all es (channel capacity))) [
    | inl full ↦ rw (after_stream, full) tt
    | inr (rx, fits) ↦ rw (after_stream, fits) refl
  ]
  after_stream-Leaves p c es (failed e) = elim (Option-cases (send_all es (channel capacity))) [
    | inl full ↦ rw (after_stream, full) tt
    | inr (rx, fits) ↦ rw (after_stream, fits) refl
  ]
  after_stream-Leaves p c es panicked = elim (Option-cases (send_all es (channel capacity))) [
    | inl full ↦ rw (after_stream, full) tt
    | inr (rx, fits) ↦ rw (after_stream, fits) refl
  ]

  run-Leaves : (p : Pipeline C S) → Leaves true (run C S p none)
  unfolding run run_started stream_from_offset
  run-Leaves p = elim (Bool-cases p.running) [
    | inl busy ↦ rw busy refl
    | inr idle ↦ rw idle (
        after_stream-Leaves (record p { running = true }) (C.stream p.connector none).0
          (C.stream p.connector none).1 (C.stream p.connector none).2)
  ]

  -- Whatever the result of a run without a snapshot that returned, the pipeline refuses to run again,
  -- with or without a snapshot.
  pub run_again :
      (p q : Pipeline C S) (r : Outcome PipelineError Unit) (tables : Option (List Text))
      → run C S p none ≡ returned q r
      → run C S q tables ≡ returned q (failed (stopped (text "pipeline is already running")))
  unfolding run
  run_again p q r tables h = rw (subst (Leaves true) h (run-Leaves p)) refl

  -- A call of `stop` resets the flag, whatever its result.
  pub stop_resets : (p : Pipeline C S) → (stop C S p).0.running ≡ false
  unfolding stop
  stop_resets p = go (close_all C S p.sinks)
    where
      go :
          (x : List S.Sink × Outcome PipelineError Unit)
          → (after_close C S (record p { running = false }) x).0.running ≡ false
      go (sinks, done u) = unfold after_close in refl
      go (sinks, failed e) = unfold after_close in refl
      go (sinks, panicked) = unfold after_close in refl

  abbrev waits : Ran C S → Bool
  waits waiting = true
  waits (returned p r) = false
