-- ===== src/Pipeline.antt =====
-- crates/opencdc-pipeline: transforms, sinks and the pipeline that joins them to a connector.
pub mod Error
pub mod Transform
pub mod Sink
pub mod Channel
pub mod Run
pub mod Delivery
pub mod Flag
