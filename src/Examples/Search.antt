-- ===== src/Examples/Search.antt =====
-- Runs of the search in the cached collections.
use agent_memory_control_pla.Prelude.{◌≤◌, ◌≡◌, refl, true, none, some, [], ◌∷◌, arith, length, All}
use agent_memory_control_pla.Prelude.Result.{ok}
use agent_memory_control_pla.Prelude.Texts.{byte_len, words_from, has_part, is_prefix}
use agent_memory_control_pla.Domain.Kinds.{
  SensitivityClass, ArtifactKind, LifecycleState, ObservationState,
}
use agent_memory_control_pla.Domain.Records.{ArtifactRecord, CollectionBatch}
use agent_memory_control_pla.Agent.Store.{Stored}
use agent_memory_control_pla.Agent.Events.{clamp}
use agent_memory_control_pla.Agent.Cache.{
  Files, bounded_local_preview, terms_of, is_hit, hit_of, scan_artifacts, scan_providers,
  search_collection_cache, push_batch,
}
use agent_memory_control_pla.Agent.Cache.Search.{
  Found, search_collection_cache-Found, IsCollectionQueue, push_batch-IsCollectionQueue,
  byte_len-bounded_local_preview-le,
}
use agent_memory_control_pla.Examples.Data.{mac, scope}

abbrev artifact : ArtifactRecord
artifact = record {
  artifact_id = "a";
  host_id = "mac";
  provider_id = "codex";
  project_id = none;
  native_id = "n";
  kind = ArtifactKind.instruction;
  title = "Guidance";
  source_reference = "/h/AGENTS.md";
  content = "Run the tests";
  sensitivity = SensitivityClass.internal;
  lifecycle = LifecycleState.active;
  observation = record {
    observation_id = "o";
    host_id = "mac";
    provider_id = "codex";
    native_id = "n";
    source_reference = "/h/AGENTS.md";
    source_hash = "x";
    observed_at = 1;
    parser_version = "1";
    schema_fingerprint = "s";
    redaction_policy_version = "r";
    collection_run_id = "run";
    state = ObservationState.present;
  };
  evidence = none;
}

abbrev batch : CollectionBatch
batch = record {
  collection_run_id = "run";
  host = mac;
  providers = [];
  projects = [];
  sessions = [];
  session_items = [];
  memory_records = [];
  config_layers = [];
  guidance_records = [];
  guidance_edges = [];
  runtime_events = [];
  artifacts = artifact ∷ [];
  next_cursor = none;
}

abbrev caches : Files CollectionBatch
caches = λ id. Stored.holds batch

found_tests :
    search_collection_cache caches ("codex" ∷ []) "tests" (some scope) 5
    ≡ ok (hit_of artifact ∷ [], true)
unfolding search_collection_cache scan_providers scan_artifacts is_hit words_from has_part is_prefix
found_tests = refl

search_collection_cache-Found_example :
    (length (hit_of artifact ∷ []) ≤ clamp 1 50 5)
    × All (Found caches ("codex" ∷ []) (terms_of "tests") (some scope)) (hit_of artifact ∷ [])
search_collection_cache-Found_example =
    search_collection_cache-Found caches ("codex" ∷ []) "tests" (some scope) 5
      (hit_of artifact ∷ []) true found_tests

one-IsCollectionQueue : IsCollectionQueue (batch ∷ [])
one-IsCollectionQueue = record { distinct = (refl, tt); bounded = omega arith }

push_batch-IsCollectionQueue_example : IsCollectionQueue (push_batch batch (batch ∷ []))
push_batch-IsCollectionQueue_example =
    push_batch-IsCollectionQueue batch (batch ∷ []) one-IsCollectionQueue

byte_len-bounded_local_preview-le_example : byte_len (bounded_local_preview "Run the tests") ≤ 1206
byte_len-bounded_local_preview-le_example = byte_len-bounded_local_preview-le "Run the tests"
