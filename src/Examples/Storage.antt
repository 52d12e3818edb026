-- ===== src/Examples/Storage.antt =====
-- A catalog that takes in a collection, forgets a memory of it and sees the collection again.
use agent_memory_control_pla.Prelude.{
  Option, ℕ, String, ℕ, ◌+◌, ◌≡◌, refl, false, none, some, List, [], ◌∷◌, length, All, map,
}
use agent_memory_control_pla.Prelude.Result.{ok}
use agent_memory_control_pla.Prelude.Texts.{is_blank}
use agent_memory_control_pla.Domain.Kinds.{
  ArtifactKind, SensitivityClass, LifecycleState, ObservationState,
}
use agent_memory_control_pla.Domain.Records.{
  RuntimeEvent, SourceObservation, ArtifactRecord, MemoryRecord, CollectionBatch,
}
use agent_memory_control_pla.Storage.Catalog.{
  ArtifactRow, Catalog, upsert, insert_or_ignore, is_policy_tombstoned, is_version,
}
use agent_memory_control_pla.Storage.Put
use agent_memory_control_pla.Storage.Ingest.{
  ingest, ingest_artifact, put_artifact, put_observation, put_evidence, row_of, note_run, add_run,
}
use agent_memory_control_pla.Storage.Ingest.Consistent.{IsConsistent}
use agent_memory_control_pla.Storage.Ingest.Counted.{ingest-IsConsistent}
use agent_memory_control_pla.Storage.Forget.{
  MemoryForgetReceipt, forget_memory_record, is_memory, first_memory,
}
use agent_memory_control_pla.Storage.Forget.Forgotten.{is_forgotten}
use agent_memory_control_pla.Storage.Forget.Stays.{
  Collection, ingest_all, forget_memory_record_stays,
}
use agent_memory_control_pla.Storage.Steps.{empty_catalog, Step, Reachable, Reachable-IsConsistent}
use agent_memory_control_pla.Storage.Events.{
  RuntimePayload, ingest_runtime_events, put_event, add_event, project_event,
}
use agent_memory_control_pla.Storage.Events.Turn.{Same}
use agent_memory_control_pla.Storage.Events.Delivered.{ingest_runtime_events_again}
use agent_memory_control_pla.Storage.Paths.{
  is_absolute_source_root, is_safe_relative_source_path, split_source, join_source_reference,
}
use agent_memory_control_pla.Prelude.Texts.{as_bytes}
use agent_memory_control_pla.Examples.Data.{mac, event}

abbrev observation : SourceObservation
observation = record {
  observation_id = "obs-1";
  host_id = "mac";
  provider_id = "codex";
  native_id = "/h/MEMORY.md";
  source_reference = "/h/MEMORY.md";
  source_hash = "hash";
  observed_at = 3;
  parser_version = "1";
  schema_fingerprint = "s";
  redaction_policy_version = "1";
  collection_run_id = "run-1";
  state = ObservationState.present;
}

abbrev artifact : ArtifactRecord
artifact = record {
  artifact_id = "artifact-1";
  host_id = "mac";
  provider_id = "codex";
  project_id = none;
  native_id = "/h/MEMORY.md";
  kind = ArtifactKind.memory;
  title = "MEMORY.md";
  source_reference = "/h/MEMORY.md";
  content = "note";
  sensitivity = SensitivityClass.internal;
  lifecycle = LifecycleState.active;
  observation = observation;
  evidence = some (record {
    evidence_id = "evidence-1";
    observation_id = "obs-1";
    excerpt = "note";
    source_hash = "hash";
    observed_at = 3;
    sensitivity = SensitivityClass.internal;
    retention_until = none;
  });
}

abbrev memory : MemoryRecord
memory = record {
  memory_record_id = "memory-1";
  host_id = "mac";
  provider_id = "codex";
  project_id = none;
  title = "MEMORY.md";
  content = "note";
  source_reference = "/h/MEMORY.md";
  source_hash = "hash";
  lifecycle = LifecycleState.active;
  confidence = none;
  observed_at = 3;
}

abbrev batch : CollectionBatch
batch = record {
  collection_run_id = "run-1";
  host = mac;
  providers = [];
  projects = [];
  sessions = [];
  session_items = [];
  memory_records = memory ∷ [];
  config_layers = [];
  guidance_records = [];
  guidance_edges = [];
  runtime_events = [];
  artifacts = artifact ∷ [];
  next_cursor = none;
}

abbrev collected : Catalog
collected = (ingest none none "index-1" 3 4 batch empty_catalog).1

collected_one : (ingest none none "index-1" 3 4 batch empty_catalog).0 ≡ ok 1
unfolding ingest Put.memory ingest_artifact is_policy_tombstoned put_artifact put_observation
    insert_or_ignore put_evidence note_run add_run
collected_one = refl

ingest-IsConsistent_example :
    IsConsistent collected.artifacts collected.search_content
    × ((n : ℕ)
        → (ingest none none "index-1" 3 4 batch empty_catalog).0 ≡ ok n
        → length collected.artifacts ≡ 0 + n)
ingest-IsConsistent_example =
    ingest-IsConsistent none none "index-1" 3 4 batch empty_catalog
      (Reachable-IsConsistent empty_catalog Reachable.new_database)

Reachable-IsConsistent_example : IsConsistent collected.artifacts collected.search_content
Reachable-IsConsistent_example = Reachable-IsConsistent collected (
    Reachable.after Reachable.new_database
      (Step.ingests none none "index-1" 3 4 batch empty_catalog))

abbrev receipt : MemoryForgetReceipt
receipt = record {
  memory_record_id = "memory-1";
  host_id = "mac";
  provider_id = "codex";
  tombstone_id = "tombstone-1";
  deleted_artifacts = 1;
  deleted_rag_chunks = 0;
  cleared_retrieval_runs = 0;
  deleted_at = 5;
}

remembered :
    first_memory (is_memory "memory-1" "mac" "codex") collected.memory_records ≡ some memory
unfolding ingest Put.memory ingest_artifact is_policy_tombstoned put_artifact put_observation
    insert_or_ignore put_evidence note_run add_run upsert
remembered = refl

forgets :
    (forget_memory_record "memory-1" "mac" "codex" none none "asked" "tombstone-1" 5 collected).0
    ≡ ok receipt
unfolding forget_memory_record ingest is_blank Put.memory ingest_artifact is_policy_tombstoned
    put_artifact put_observation insert_or_ignore put_evidence note_run add_run upsert row_of
forgets = refl

-- The same collection, again.
abbrev again : List Collection
again =
    record {
      fault = none;
      restrict = none;
      index_run_id = "index-2";
      started_at = 6;
      now = 7;
      batch = batch;
    }
    ∷ []

forget_memory_record_stays_example :
    All
      (λ m. is_forgotten "memory-1" "mac" "codex" "/h/MEMORY.md" "hash" m ≡ false)
      (ingest_all again
        (forget_memory_record "memory-1" "mac" "codex" none none "asked" "tombstone-1" 5
          collected).1).memory_records
    × All
        (λ row. is_version "mac" "codex" "/h/MEMORY.md" "hash" row ≡ false)
        (ingest_all again
          (forget_memory_record "memory-1" "mac" "codex" none none "asked" "tombstone-1" 5
            collected).1).artifacts
forget_memory_record_stays_example =
    forget_memory_record_stays none "memory-1" "mac" "codex" "asked" "tombstone-1" 5 collected
      memory receipt again remembered forgets

abbrev payload : RuntimePayload
payload = record {
  root = some "/h";
  paths = some ("MEMORY.md" ∷ "../x" ∷ []);
  thread_id = none;
  title = none;
  cwd = none;
  model = none;
  project_id = none;
  archived = none;
  created_at = none;
}

abbrev decode : String → Option RuntimePayload
decode text = some payload

abbrev changed : RuntimeEvent
changed = record (event "event-1") { event_type = "source.changed" }

abbrev marked : Catalog
marked = (ingest_runtime_events decode none none (changed ∷ []) collected).1

delivered : (ingest_runtime_events decode none none (changed ∷ []) collected).0 ≡ ok 1
unfolding ingest_runtime_events put_event ingest Put.memory ingest_artifact is_policy_tombstoned
    put_artifact put_observation insert_or_ignore put_evidence note_run add_run upsert project_event
delivered = refl

delivered_again : (ingest_runtime_events decode none none (changed ∷ []) marked).0 ≡ ok 0
unfolding ingest_runtime_events put_event ingest Put.memory ingest_artifact is_policy_tombstoned
    put_artifact put_observation insert_or_ignore put_evidence note_run add_run upsert project_event
    add_event
delivered_again = refl

abbrev lifecycles : List ArtifactRow → List LifecycleState
lifecycles rows = map (λ row. row.lifecycle) rows

-- The artifact at the path that changed is stale.
marked_stale : lifecycles marked.artifacts ≡ LifecycleState.stale ∷ []
unfolding ingest_runtime_events put_event ingest Put.memory ingest_artifact is_policy_tombstoned
    put_artifact put_observation insert_or_ignore put_evidence note_run add_run upsert project_event
    add_event is_absolute_source_root is_safe_relative_source_path as_bytes split_source
    join_source_reference row_of
marked_stale = refl

ingest_runtime_events_again_example :
    (◌≡◌ {A = ℕ} 0 0) × Same marked (ingest_runtime_events decode none none (changed ∷ []) marked).1
ingest_runtime_events_again_example =
    ingest_runtime_events_again decode none (changed ∷ []) collected 1 0 delivered delivered_again
