-- ===== src/Domain.antt =====
-- crates/amcp-domain/src/lib.rs: the data that agents and the controller exchange, and approvals.
pub mod Kinds
pub mod Change
pub mod Records
pub mod Foreign
pub mod Approval
