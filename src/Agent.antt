-- ===== src/Agent.antt =====
-- crates/amcp-agent/src/main.rs: the agent of one host. It authenticates requests, guards changes by
-- approvals, and keeps caches and outboxes in files of its state directory.
pub mod Store
pub mod Auth
pub mod Approvals
pub mod Events
pub mod Stream
pub mod Cache
pub mod Requests
