-- ===== src/Job.antt =====
-- Package job (internal/job): the configuration of a snapshot job and its three parts.
pub mod Config
pub mod Template
pub mod Executor
pub mod Monitor
