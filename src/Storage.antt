-- ===== src/Storage.antt =====
-- The catalog of the controller, crates/amcp-storage/src/lib.rs: a database of tables that a
-- collection is taken into and that memory records are taken out of.
pub mod Catalog
pub mod Key
pub mod Put
pub mod Ingest
pub mod Forget
pub mod Paths
pub mod Events
pub mod Steps
