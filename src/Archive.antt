-- ===== src/Archive.antt =====
-- src/libutil/archive.cc: the Nix archive format, NAR.
pub mod Tag
pub mod Tree
pub mod Dump
pub mod Parse
pub mod Format
pub mod Written
pub mod Tokens
pub mod RoundTrip
pub mod Accepted
pub mod Canonical
pub mod Fuel
pub mod Prefix
mod Tests
