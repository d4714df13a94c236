-- ===== src/Orchestrator.antt =====
-- src/orchestrator/: submissions, the worker pool and the pipeline of a job.
pub mod Job
pub mod Pipeline
pub mod Pool
