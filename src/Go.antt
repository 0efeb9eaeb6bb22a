-- ===== src/Go.antt =====
-- The functions of Go's standard library that the program calls, written out over bytes. They are
-- part of the language and map to no file of the repository.
pub mod Strings
pub mod Path
pub mod Base64
pub mod Net
