-- ===== src/Protocol.antt =====
-- crates/amcp-protocol/src/lib.rs: the messages between a controller and an agent. A timestamp that
-- travels as text is the text.
use agent_memory_control_pla.Prelude.{ℕ, String, Bool, Option, List}
use agent_memory_control_pla.Prelude.Result.{Result}
use agent_memory_control_pla.Domain.Kinds.{Scope, ArtifactRef, HostIdentity}
use agent_memory_control_pla.Domain.Change.{ChangeRequest, ChangeSet, ChangeReceipt}
use agent_memory_control_pla.Domain.Records.{
  ArtifactRecord, CollectionBatch, LocalSearchHit, ProviderDescriptor, RuntimeEvent,
  RuntimeThreadRecord, RuntimeThreadSnapshot,
}
use agent_memory_control_pla.Domain.Approval.{ApprovalEnvelope}

abbrev pub protocol_version : ℕ
protocol_version = 1

pub data RequestMethod : Type 0 where
  register : (controller_id : String) → RequestMethod
  enroll : (controller_id : String) → RequestMethod
  heartbeat : RequestMethod
  capabilities : RequestMethod
  collect : (scope : Option Scope) (cursor : Option String) → RequestMethod
  search_local : (query : String) (scope : Option Scope) (limit : ℕ) → RequestMethod
  replay_collection : (provider_id : String) (limit : ℕ) → RequestMethod
  replay_events : (after_event_id : Option String) (limit : ℕ) → RequestMethod
  subscribe_events : (after_event_id : Option String) (limit wait_ms : ℕ) → RequestMethod
  open_event_stream :
      (after_event_id : Option String) (scope : Option Scope) (max_in_flight heartbeat_ms : ℕ)
      → RequestMethod
  close_event_stream : (stream_id : String) → RequestMethod
  runtime_list_threads :
      (provider_id : String) (scope : Option Scope) (cursor : Option String) (limit : ℕ)
      → RequestMethod
  runtime_read_thread :
      (provider_id : String) (scope : Option Scope) (thread_id : String) → RequestMethod
  runtime_propose_thread_change : (request : ChangeRequest) → RequestMethod
  runtime_apply_thread_change :
      (change_set : ChangeSet) (approval : ApprovalEnvelope) → RequestMethod
  ack_events : (event_ids : List String) → RequestMethod
  read_artifact : (target : ArtifactRef) (redacted : Bool) → RequestMethod
  propose_change : (request : ChangeRequest) → RequestMethod
  apply_change : (change_set : ChangeSet) (approval : ApprovalEnvelope) → RequestMethod
  rollback : (change_set : ChangeSet) (approval : ApprovalEnvelope) → RequestMethod
  shutdown : RequestMethod

pub record RequestEnvelope : Type 0 where
  pub protocol_version : ℕ
  pub request_id : String
  pub correlation_id : String
  pub host_id : Option String
  pub deadline_ms : Option ℕ
  pub idempotency_key : Option String
  pub pairing_code : Option String
  pub method : RequestMethod
  pub token : Option String

pub data ResponsePayload : Type 0 where
  registered : (agent_id : String) (host : HostIdentity) → ResponsePayload
  enrolled :
      (agent_id : String) (host : HostIdentity) (credential expires_at : String) → ResponsePayload
  heartbeat : (healthy : Bool) (host_id timestamp : String) → ResponsePayload
  capabilities :
      (platform : String) (providers : List String) (provider_descriptors : List ProviderDescriptor)
      (capabilities : List String) (agent_version : String)
      → ResponsePayload
  collection : CollectionBatch → ResponsePayload
  local_search : (results : List LocalSearchHit) (cache_available : Bool) → ResponsePayload
  collection_replay : (provider_id : String) (batches : List CollectionBatch) → ResponsePayload
  runtime_events : List RuntimeEvent → ResponsePayload
  runtime_event_page :
      (events : List RuntimeEvent) (next_event_id : Option String) (timed_out : Bool)
      → ResponsePayload
  event_stream_opened : (stream_id : String) (max_in_flight heartbeat_ms : ℕ) → ResponsePayload
  event_stream_page :
      (stream_id : String) (events : List RuntimeEvent) (next_event_id : Option String)
      (heartbeat : Bool)
      → ResponsePayload
  event_stream_closed : (stream_id reason : String) → ResponsePayload
  runtime_thread_page :
      (provider_id : String) (threads : List RuntimeThreadRecord) (next_cursor : Option String)
      → ResponsePayload
  runtime_thread_snapshot : RuntimeThreadSnapshot → ResponsePayload
  runtime_events_acked : ℕ → ResponsePayload
  artifact : ArtifactRecord → ResponsePayload
  change_set : ChangeSet → ResponsePayload
  change_receipt : ChangeReceipt → ResponsePayload
  shutdown_ack : ResponsePayload

pub record ProtocolError : Type 0 where
  pub code : String
  pub message : String

-- `ProtocolError::new`
abbrev pub error : String → String → ProtocolError
error code message = record { code = code; message = message }

pub record ResponseEnvelope : Type 0 where
  pub protocol_version : ℕ
  pub request_id : String
  pub result : Result ProtocolError ResponsePayload
