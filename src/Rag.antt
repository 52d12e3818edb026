-- ===== src/Rag.antt =====
-- crates/amcp-rag/src/lib.rs: retrieval of passages from an index that is derived from the catalog.
pub mod Types
pub mod Config
pub mod Index
pub mod Retrieve
pub mod Store
