-- ===== src/Tests.antt =====
-- The theorems at concrete inputs.
pub mod World
mod Storage
mod Health
pub mod Creation
mod Naming
pub mod Deletion
pub mod Jobs
mod Server
mod Command
pub mod Busy
mod Writers
mod Service
