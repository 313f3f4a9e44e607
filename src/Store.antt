-- ===== src/Store.antt =====
-- The store's database and the operations of src/libstore/local-store.cc on it.
pub mod Schema
pub mod Invariant
pub mod Delete
pub mod Paths
pub mod Rows
pub mod References
pub mod Register
pub mod Query
pub mod Printed
pub mod Invalidate
pub mod Collect
pub mod Prefix
pub mod Verify
pub mod Optimise
pub mod Roots
mod Tests
