-- ===== src/ObjectTable.antt =====
-- The object table: kernel/krust/src/kernel/object_table.rs.
pub mod Table
pub mod Add
pub mod Find
pub mod Remove
pub mod Live
pub mod Valid
pub mod Placed
pub mod Removed
pub mod Owned
pub mod Additions
pub mod Steps
pub mod Lookups
mod Tests
