-- ===== src/Domain/Change.antt =====
-- Change requests, change sets and receipts of crates/amcp-domain/src/lib.rs. A `DateTime<Utc>` is
-- its number of nanoseconds since the epoch.
use agent_memory_control_pla.Prelude.{ℕ, String, Option, List}
use agent_memory_control_pla.Domain.Kinds.{Scope, ArtifactRef, ChangeStatus, ChangeOperationKind}

pub record ChangeRequest : Type 0 where
  pub actor : String
  pub scope : Scope
  pub target : ArtifactRef
  pub expected_source_hash : Option String
  pub operation : ChangeOperationKind
  pub replacement_content : Option String
  pub reason : String
  pub evidence_ids : List String

pub record ChangeOperation : Type 0 where
  pub operation_id : String
  pub target : ArtifactRef
  pub operation : ChangeOperationKind
  pub expected_source_hash : Option String
  pub before_hash : Option String
  pub after_hash : Option String
  pub replacement_content : Option String
  pub diff : String

pub record ChangeSet : Type 0 where
  pub change_set_id : String
  pub actor : String
  pub scope : Scope
  pub provider_id : String
  pub reason : String
  pub evidence_ids : List String
  pub status : ChangeStatus
  pub created_at : ℕ
  pub updated_at : ℕ
  pub operations : List ChangeOperation

pub record ChangeReceipt : Type 0 where
  pub change_set_id : String
  pub status : ChangeStatus
  pub applied_at : ℕ
  pub backup_references : List String
  pub before_hashes : List String
  pub after_hashes : List String
  pub message : String
