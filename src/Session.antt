-- ===== src/Session.antt =====
-- server/src/session: managed sessions, and the manager that keeps them.
pub mod Types
pub mod Manager
pub mod KeyUpload
pub mod Signal
pub mod Transports
