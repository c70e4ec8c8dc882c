-- ===== src/Process.antt =====
-- Process definitions, their versions, their jobs and the executions (netops-backend/app).
pub mod Store
pub mod Definitions
pub mod Jobs
pub mod Runs
pub mod Publish
pub mod Devices
pub mod Examples
pub mod RunExamples
