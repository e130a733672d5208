-- ===== src/Args.antt =====
-- pkg/protocol/args.go: the list of key-value pairs behind query strings, form bodies and headers.
pub mod Decode
pub mod Store
pub mod Query
mod Tests
