-- ===== src/Domain/Records.antt =====
-- The normalized records of crates/amcp-domain/src/lib.rs that a collection carries. An `f32` is
-- kept as its bit pattern: no modelled operation computes with it.
use agent_memory_control_pla.Prelude.{ℕ, String, Option, List, Bool}
use agent_memory_control_pla.Prelude.Int.{ℤ}
use agent_memory_control_pla.Domain.Kinds.{
  SensitivityClass, ArtifactKind, ObservationState, LifecycleState, ProviderSupportLevel,
  ProviderHealth, ProviderCompatibility, HostIdentity,
}

pub record SourceObservation : Type 0 where
  pub observation_id : String
  pub host_id : String
  pub provider_id : String
  pub native_id : String
  pub source_reference : String
  pub source_hash : String
  pub observed_at : ℕ
  pub parser_version : String
  pub schema_fingerprint : String
  pub redaction_policy_version : String
  pub collection_run_id : String
  pub state : ObservationState

pub record EvidenceSnapshot : Type 0 where
  pub evidence_id : String
  pub observation_id : String
  pub excerpt : String
  pub source_hash : String
  pub observed_at : ℕ
  pub sensitivity : SensitivityClass
  pub retention_until : Option ℕ

pub record ArtifactRecord : Type 0 where
  pub artifact_id : String
  pub host_id : String
  pub provider_id : String
  pub project_id : Option String
  pub native_id : String
  pub kind : ArtifactKind
  pub title : String
  pub source_reference : String
  pub content : String
  pub sensitivity : SensitivityClass
  pub lifecycle : LifecycleState
  pub observation : SourceObservation
  pub evidence : Option EvidenceSnapshot

pub record LocalSearchHit : Type 0 where
  pub artifact_id : String
  pub host_id : String
  pub provider_id : String
  pub project_id : Option String
  pub title : String
  pub source_reference : String
  pub preview : String
  pub sensitivity : SensitivityClass
  pub lifecycle : LifecycleState
  pub observed_at : ℕ

pub record ProjectRecord : Type 0 where
  pub project_id : String
  pub host_id : String
  pub provider_id : String
  pub root_path : String
  pub display_name : String
  pub trust_level : Option String
  pub discovered_from : String
  pub observed_at : ℕ

pub record SessionRecord : Type 0 where
  pub session_id : String
  pub host_id : String
  pub provider_id : String
  pub project_id : Option String
  pub title : Option String
  pub cwd : Option String
  pub model : Option String
  pub branch : Option String
  pub started_at : Option ℕ
  pub ended_at : Option ℕ
  pub archived : Bool
  pub source_reference : String
  pub source_hash : String
  pub metadata_json : String
  pub observed_at : ℕ

pub record SessionItem : Type 0 where
  pub session_id : String
  pub host_id : String
  pub provider_id : String
  pub sequence : ℤ
  pub role : Option String
  pub item_kind : String
  pub content : Option String
  pub source_reference : String
  pub observed_at : ℕ

pub record MemoryRecord : Type 0 where
  pub memory_record_id : String
  pub host_id : String
  pub provider_id : String
  pub project_id : Option String
  pub title : String
  pub content : String
  pub source_reference : String
  pub source_hash : String
  pub lifecycle : LifecycleState
  pub confidence : Option ℕ
  pub observed_at : ℕ

pub record ConfigLayerRecord : Type 0 where
  pub config_layer_id : String
  pub host_id : String
  pub provider_id : String
  pub project_id : Option String
  pub source_reference : String
  pub scope : String
  pub profile : Option String
  pub precedence_rank : ℤ
  pub source_hash : String
  pub observed_at : ℕ

pub record GuidanceRecord : Type 0 where
  pub guidance_id : String
  pub host_id : String
  pub provider_id : String
  pub project_id : Option String
  pub source_reference : String
  pub relative_scope : String
  pub kind : String
  pub precedence_rank : ℤ
  pub source_hash : String
  pub observed_at : ℕ

pub record GuidanceEdge : Type 0 where
  pub host_id : String
  pub provider_id : String
  pub lower_guidance_id : String
  pub higher_guidance_id : String
  pub relation : String

pub record RuntimeEvent : Type 0 where
  pub event_id : String
  pub host_id : String
  pub provider_id : String
  pub event_type : String
  pub sequence : ℤ
  pub payload_json : String
  pub occurred_at : ℕ

pub record RuntimeThreadRecord : Type 0 where
  pub thread_id : String
  pub host_id : String
  pub provider_id : String
  pub title : Option String
  pub cwd : Option String
  pub model : Option String
  pub status : Option String
  pub archived : Bool
  pub source_reference : String
  pub observed_at : ℕ

pub record RuntimeThreadSnapshot : Type 0 where
  pub thread : RuntimeThreadRecord
  pub item_count : ℕ
  pub item_kinds : List String
  pub item_roles : List String

pub record ProviderDescriptor : Type 0 where
  pub id : String
  pub display_name : String
  pub version : Option String
  pub adapter_version : String
  pub schema_fingerprint : String
  pub support_level : ProviderSupportLevel
  pub health : ProviderHealth
  pub compatibility : ProviderCompatibility
  pub native_roots : List String
  pub capabilities : List String

pub record CollectionBatch : Type 0 where
  pub collection_run_id : String
  pub host : HostIdentity
  pub providers : List ProviderDescriptor
  pub projects : List ProjectRecord
  pub sessions : List SessionRecord
  pub session_items : List SessionItem
  pub memory_records : List MemoryRecord
  pub config_layers : List ConfigLayerRecord
  pub guidance_records : List GuidanceRecord
  pub guidance_edges : List GuidanceEdge
  pub runtime_events : List RuntimeEvent
  pub artifacts : List ArtifactRecord
  pub next_cursor : Option String
