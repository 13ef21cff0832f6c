-- ===== src/Pipeline/Error.antt =====
-- crates/opencdc-pipeline/src/error.rs: the error of a pipeline.
use opencdc.Base.{Text, text, ◌++◌, Outcome, done, failed, panicked}
use opencdc.Core.Error

pub data PipelineError : Type 0 where
  sink transform source stopped : Text → PipelineError
  core : Error.Error → PipelineError

-- `Display`, as `thiserror` writes it from the attributes.
unfoldable pub display : PipelineError → Text
display (sink m) = text "Sink error: " ++ m
display (transform m) = text "Transform error: " ++ m
display (source m) = text "Source error: " ++ m
display (stopped m) = text "Pipeline stopped: " ++ m
display (core e) = text "Core error: " ++ Error.display e

-- `Result::map_err`
abbrev pub map_err : {E F A : Type 0} → (E → F) → Outcome E A → Outcome F A
map_err f (done a) = done a
map_err f (failed e) = failed (f e)
map_err f panicked = panicked
