-- ===== src/Controller.antt =====
-- `GroupControllerServer` (internal/driver/groupcontroller.go).
pub mod Types
pub mod Checks
pub mod Create
pub mod Delete
pub mod Service
pub mod Get
