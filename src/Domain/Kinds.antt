-- ===== src/Domain/Kinds.antt =====
-- The enumerations of crates/amcp-domain/src/lib.rs, and the scope of a request.
use agent_memory_control_pla.Prelude.{String, Option, none, some}

pub data SensitivityClass : Type 0 where
  public internal sensitive secret_like : SensitivityClass

pub data ArtifactKind : Type 0 where
  configuration instruction memory session tooling project_context runtime_event : ArtifactKind

pub data ObservationState : Type 0 where
  present changed missing inaccessible : ObservationState

pub data LifecycleState : Type 0 where
  discovered candidate approved active stale superseded deleted : LifecycleState

pub data ChangeStatus : Type 0 where
  proposed approved applying applied rejected conflict failed rolled_back : ChangeStatus

pub data ChangeOperationKind : Type 0 where
  replace_text create_text delete_file runtime_archive runtime_unarchive : ChangeOperationKind

pub data ProviderSupportLevel : Type 0 where
  full read_only inventory_only unsupported : ProviderSupportLevel

pub data ProviderHealth : Type 0 where
  healthy degraded unavailable unknown : ProviderHealth

pub data ProviderCompatibility : Type 0 where
  compatible unsupported unknown : ProviderCompatibility

pub record Scope : Type 0 where
  pub host_id : Option String
  pub provider_id : Option String
  pub project_id : Option String

-- `Scope::host`
abbrev pub host : String → Scope
host host_id = record { host_id = some host_id; provider_id = none; project_id = none }

pub record ArtifactRef : Type 0 where
  pub host_id : String
  pub provider_id : String
  pub native_id : String
  pub source_reference : String

pub record HostIdentity : Type 0 where
  pub host_id : String
  pub display_name : String
  pub platform : String
  pub hostname : String
