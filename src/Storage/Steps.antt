-- ===== src/Storage/Steps.antt =====
-- The catalogs that crates/amcp-storage/src/lib.rs can come to by collections, runtime events and forgetting, in any
-- order and with any errors.
use agent_memory_control_pla.Prelude.{List, ℕ, String, refl, Option, none, [], arith}
use agent_memory_control_pla.Domain.Records.{RuntimeEvent, CollectionBatch}
use agent_memory_control_pla.Agent.Store.{Error}
use agent_memory_control_pla.Storage.Catalog.{Catalog}
use agent_memory_control_pla.Storage.Events.{RuntimePayload, ingest_runtime_events}
use agent_memory_control_pla.Storage.Events.Consistent.{ingest_runtime_events-IsTidy}
use agent_memory_control_pla.Storage.Ingest.{ingest}
use agent_memory_control_pla.Storage.Ingest.Consistent.{IsConsistent}
use agent_memory_control_pla.Storage.Ingest.Counted.{ingest-IsConsistent}
use agent_memory_control_pla.Storage.Forget.{forget_memory_record}
use agent_memory_control_pla.Storage.Forget.Consistent.{forget_memory_record-IsTidy}

-- A new database. The tables of the retrieval index are made by its own code.
abbrev pub empty_catalog : Catalog
empty_catalog = record {
  hosts = [];
  providers = [];
  projects = [];
  sessions = [];
  session_items = [];
  memory_records = [];
  config_layers = [];
  guidance_records = [];
  guidance_edges = [];
  runtime_events = [];
  artifacts = [];
  source_observations = [];
  evidence_snapshots = [];
  search_content = [];
  collection_cursors = [];
  index_runs = [];
  policy_tombstones = [];
  artifact_tags = [];
  cross_host_relationships = [];
  rag_chunks = none;
  rag_retrieval_runs = none;
}

pub data Step : Catalog → Catalog → Type 0 where
  ingests :
      (fault restrict : Option Error) (index_run_id : String) (started_at now : ℕ)
      (batch : CollectionBatch) (c : Catalog)
      → Step c (ingest fault restrict index_run_id started_at now batch c).1
  forgets :
      (memory_record_id host_id provider_id : String) (fault restrict : Option Error)
      (reason tombstone_id : String) (now : ℕ) (c : Catalog)
      → Step c
          (forget_memory_record memory_record_id host_id provider_id fault restrict reason
            tombstone_id now c).1
  delivers :
      (from_str : String → Option RuntimePayload) (fault restrict : Option Error)
      (events : List RuntimeEvent) (c : Catalog)
      → Step c (ingest_runtime_events from_str fault restrict events c).1

pub data Reachable : Catalog → Type 0 where
  new_database : Reachable empty_catalog
  after : {before now : Catalog} → Reachable before → Step before now → Reachable now

Step-IsConsistent :
    (c c' : Catalog)
    → Step c c'
    → IsConsistent c.artifacts c.search_content
    → IsConsistent c'.artifacts c'.search_content
Step-IsConsistent c _ (ingests fault restrict index_run_id started_at now batch _) h =
    (ingest-IsConsistent fault restrict index_run_id started_at now batch c h).0
Step-IsConsistent c _
      (forgets memory_record_id host_id provider_id fault restrict reason tombstone_id now _) h =
    forget_memory_record-IsTidy memory_record_id host_id provider_id reason tombstone_id now fault
      restrict c h
Step-IsConsistent c _ (delivers from_str fault restrict events _) h =
    ingest_runtime_events-IsTidy from_str fault restrict events c h

-- In every catalog that collections, runtime events and forgetting lead to from a new database, no two artifacts have
-- the same id or are the same version of a source, and the search entries are one for each artifact.
pub Reachable-IsConsistent : (c : Catalog) → Reachable c → IsConsistent c.artifacts c.search_content
Reachable-IsConsistent _ new_database = record {
  ids = λ artifact_id. omega arith;
  entries = λ artifact_id. refl;
  versions = λ host_id provider_id native_id source_hash. omega arith;
}
Reachable-IsConsistent c (after {before} r step) =
    Step-IsConsistent before c step (Reachable-IsConsistent before r)
