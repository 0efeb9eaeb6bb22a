-- ===== src/Tests.antt =====
-- Concrete runs: a small machine to run the program on, and each theorem of the library at an input.
pub mod Samples
pub mod Configs
pub mod Containers
pub mod Sessions
pub mod Databases
pub mod Tokens
pub mod Interleavings
pub mod Backends
pub mod Services
pub mod Access
pub mod Programs
