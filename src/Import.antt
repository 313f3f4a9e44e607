-- ===== src/Import.antt =====
-- The import pipeline of src/libstore/local-store.cc: the hashing threads beside the restore.
pub mod Queue
pub mod FromDump
pub mod Hasher
