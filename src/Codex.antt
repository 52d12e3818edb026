-- ===== src/Codex.antt =====
-- crates/amcp-codex/src/lib.rs: the adapter of the Codex provider, as far as it changes files. It
-- authorizes a path, proposes a change of the file there, applies it behind a backup, and rolls it
-- back.
pub mod Files
pub mod Paths
pub mod Propose
pub mod Apply
pub mod Rollback
pub mod Confinement
pub mod RoundTrip
pub mod Applied
pub mod Restored
pub mod Partial
pub mod Roots
pub mod Allowlist
pub mod Provider
