-- ===== src/Syncx.antt =====
-- internal/syncx: the client of the Mutagen daemon and the controller that reconciles sessions.
pub mod Daemon
pub mod Specification
pub mod Client
pub mod Naming
pub mod Controller
