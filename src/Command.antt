-- ===== src/Command.antt =====
-- The command (cmd/etcd-snapshot-driver): its flags, its settings, its logger, its main function and
-- the process around it.
pub mod Flags
pub mod Settings
pub mod Logging
pub mod Run
pub mod Root
