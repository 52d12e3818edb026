-- ===== src/Storage/Put.antt =====
-- The bodies of the loops of `ingest` in crates/amcp-storage/src/lib.rs but the one over the artifacts.
use agent_memory_control_pla.Prelude.{ℕ, String, if◌then◌else◌}
use agent_memory_control_pla.Prelude.Result.{Result, ok, ◌>>=◌}
use agent_memory_control_pla.Domain.Records.{
  ProjectRecord, SessionRecord, SessionItem, MemoryRecord, ConfigLayerRecord, GuidanceRecord,
  GuidanceEdge, RuntimeEvent, ProviderDescriptor, CollectionBatch,
}
use agent_memory_control_pla.Agent.Store.{Error}
use agent_memory_control_pla.Storage.Catalog.{
  Catalog, HostRow, CursorRow, upsert, upsert_child, insert_or_ignore, has_host,
  is_policy_tombstoned,
}
use agent_memory_control_pla.Storage.Key

unfoldable pub host : HostRow → Catalog → Catalog
host row c = record c { hosts = upsert Key.host row c.hosts }

unfoldable pub provider : String → ProviderDescriptor → Catalog → Result Error Catalog
provider host_id descriptor c = do
  rows ←
      upsert_child Key.provider (has_host c host_id)
        (record { host_id = host_id; provider = descriptor }) c.providers
  ok (record c { providers = rows })

unfoldable pub project : ProjectRecord → Catalog → Result Error Catalog
project row c = do
  rows ← upsert_child Key.project (has_host c row.host_id) row c.projects
  ok (record c { projects = rows })

unfoldable pub session : SessionRecord → Catalog → Result Error Catalog
session row c = do
  rows ← upsert_child Key.session (has_host c row.host_id) row c.sessions
  ok (record c { sessions = rows })

unfoldable pub session_item : SessionItem → Catalog → Result Error Catalog
session_item row c = ok (record c { session_items = upsert Key.session_item row c.session_items })

unfoldable pub memory : MemoryRecord → Catalog → Result Error Catalog
memory row c = ok (
    if is_policy_tombstoned c.policy_tombstones row.host_id row.provider_id row.source_reference
      row.source_hash
    then c
    else record c { memory_records = upsert Key.memory row c.memory_records })

unfoldable pub layer : ConfigLayerRecord → Catalog → Result Error Catalog
layer row c = do
  rows ← upsert_child Key.layer (has_host c row.host_id) row c.config_layers
  ok (record c { config_layers = rows })

unfoldable pub guidance : GuidanceRecord → Catalog → Result Error Catalog
guidance row c = do
  rows ← upsert_child Key.guidance (has_host c row.host_id) row c.guidance_records
  ok (record c { guidance_records = rows })

unfoldable pub edge : GuidanceEdge → Catalog → Result Error Catalog
edge row c = ok (record c { guidance_edges = upsert Key.edge row c.guidance_edges })

unfoldable pub event : RuntimeEvent → Catalog → Result Error Catalog
event row c = do
  rows ← insert_or_ignore Key.event (has_host c row.host_id) row c.runtime_events
  ok (record c { runtime_events = rows })

unfoldable pub cursor : CollectionBatch → ℕ → ProviderDescriptor → Catalog → Result Error Catalog
cursor batch now descriptor c =
    let row : CursorRow = record {
      host_id = batch.host.host_id;
      provider_id = descriptor.id;
      cursor = batch.next_cursor;
      collection_run_id = batch.collection_run_id;
      updated_at = now;
    } in
    ok (record c { collection_cursors = upsert Key.cursor row c.collection_cursors })
