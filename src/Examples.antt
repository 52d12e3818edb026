-- ===== src/Examples.antt =====
-- Concrete runs: data for each part of the program, and the theorems applied to it.
pub mod Data
mod Approvals
mod Requests
mod Events
mod Streams
mod Codex
mod Search
mod Confined
mod Rag
mod Storage
