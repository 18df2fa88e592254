-- ===== src/Builders.antt =====
-- The builders of the framework: one module for each kind of request.
pub mod Create
pub mod Delete
pub mod Exists
pub mod GetData
pub mod SetData
pub mod Children
pub mod GetAcl
pub mod SetAcl
pub mod Sync
pub mod Transaction
mod Tests
