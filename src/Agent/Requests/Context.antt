-- ===== src/Agent/Requests/Context.antt =====
-- What `process_request` of crates/amcp-agent/src/main.rs works with.
use agent_memory_control_pla.Prelude.{ℕ, String, Option, List}
use agent_memory_control_pla.Prelude.Result.{Result, err}
use agent_memory_control_pla.Domain.Foreign.{Foreign}
use agent_memory_control_pla.Domain.Kinds.{HostIdentity}
use agent_memory_control_pla.Domain.Records.{CollectionBatch}
use agent_memory_control_pla.Protocol
use agent_memory_control_pla.Protocol.{ResponsePayload, ProtocolError}
use agent_memory_control_pla.Providers.{ProviderRegistry}
use agent_memory_control_pla.Agent.Store.{Error}
use agent_memory_control_pla.Agent.Approvals.{Ledger}
use agent_memory_control_pla.Agent.Cache.{Files}
use agent_memory_control_pla.Agent.Events.{Outbox}

-- The surroundings of one request: the clock, the random part of a new id, the configuration, the
-- text that serde_json makes of a failure, and for each file the error of its replacement, if the
-- replacement fails.
pub record Env (W : Type 0) : Type 0 where
  pub foreign : Foreign
  pub failure_payload : String → String
  pub host : HostIdentity
  pub now : ℕ
  pub uuid : String
  pub registry : ProviderRegistry W
  pub agent_version : String
  pub backup_dir : String
  pub credential_fault : Option Error
  pub approval_fault : Option Error
  pub event_fault : Option Error
  pub cache_fault : Option Error
  pub outbox_fault : Option Error

-- The state of an agent: what is in memory, its files, and the world.
pub record Agent (W : Type 0) : Type 0 where
  pub ledger : Ledger
  pub events : Outbox
  pub caches : Files CollectionBatch
  pub outboxes : Files (List CollectionBatch)
  pub world : W

abbrev pub Reply : Type 0
Reply = Result ProtocolError ResponsePayload

abbrev pub deny : String → String → Reply
deny code message = err (Protocol.error code message)
