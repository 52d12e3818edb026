-- ===== src/Storage/Catalog.antt =====
-- The tables of crates/amcp-storage/src/lib.rs that a collection changes, with the keys of `migrate`,
-- and `is_policy_tombstoned`. A table is the list of its rows, in the order of their insertion. Times
-- and the values that are stored as JSON are kept as they are.
use agent_memory_control_pla.Prelude.{
  ℕ, String, Bool, true, ◌&&◌, Option, none, some, List, [], ◌∷◌, ◌++◌, any, ◌=ₜ◌, if◌then◌else◌,
  map,
}
use agent_memory_control_pla.Prelude.Result.{Result, ok, err}
use agent_memory_control_pla.Domain.Kinds.{
  HostIdentity, ArtifactKind, SensitivityClass, LifecycleState,
}
use agent_memory_control_pla.Domain.Records.{
  SourceObservation, EvidenceSnapshot, ProjectRecord, SessionRecord, SessionItem, MemoryRecord,
  ConfigLayerRecord, GuidanceRecord, GuidanceEdge, RuntimeEvent, ProviderDescriptor,
}
use agent_memory_control_pla.Agent.Store.{Error}
use agent_memory_control_pla.Rag.Types.{IndexedChunk}
use agent_memory_control_pla.Rag.Store.{RetrievalRun}

pub record HostRow : Type 0 where
  pub host : HostIdentity
  pub last_seen : ℕ

pub record ProviderRow : Type 0 where
  pub host_id : String
  pub provider : ProviderDescriptor

pub record ArtifactRow : Type 0 where
  pub artifact_id : String
  pub host_id : String
  pub provider_id : String
  pub project_id : Option String
  pub native_id : String
  pub kind : ArtifactKind
  pub title : String
  pub source_reference : String
  pub content : String
  pub sensitivity : SensitivityClass
  pub lifecycle : LifecycleState
  pub observed_at : ℕ
  pub source_hash : String

pub record ObservationRow : Type 0 where
  pub artifact_id : String
  pub observation : SourceObservation

pub record SearchRow : Type 0 where
  pub artifact_id : String
  pub title : String
  pub content : String
  pub source_reference : String
  pub host_id : String
  pub provider_id : String

pub record CursorRow : Type 0 where
  pub host_id : String
  pub provider_id : String
  pub cursor : Option String
  pub collection_run_id : String
  pub updated_at : ℕ

-- A row of `index_runs`; those of a collection are incremental, completed and without an error.
pub record IndexRun : Type 0 where
  pub run_id : String
  pub mode : String
  pub status : String
  pub started_at : ℕ
  pub completed_at : Option ℕ
  pub indexed_count : ℕ
  pub last_artifact_id : Option String
  pub error : Option String

pub record Tombstone : Type 0 where
  pub tombstone_id : String
  pub host_id : String
  pub provider_id : String
  pub native_id : String
  pub source_hash : Option String
  pub reason : String
  pub created_at : ℕ

pub record ArtifactTag : Type 0 where
  pub artifact_id : String
  pub tag_id : String

pub record Relationship : Type 0 where
  pub left_artifact_id : String
  pub right_artifact_id : String
  pub relationship_kind : String

-- The tables of the retrieval index are there once it has been opened on the same database.
pub record Catalog : Type 0 where
  pub hosts : List HostRow
  pub providers : List ProviderRow
  pub projects : List ProjectRecord
  pub sessions : List SessionRecord
  pub session_items : List SessionItem
  pub memory_records : List MemoryRecord
  pub config_layers : List ConfigLayerRecord
  pub guidance_records : List GuidanceRecord
  pub guidance_edges : List GuidanceEdge
  pub runtime_events : List RuntimeEvent
  pub artifacts : List ArtifactRow
  pub source_observations : List ObservationRow
  pub evidence_snapshots : List EvidenceSnapshot
  pub search_content : List SearchRow
  pub collection_cursors : List CursorRow
  pub index_runs : List IndexRun
  pub policy_tombstones : List Tombstone
  pub artifact_tags : List ArtifactTag
  pub cross_host_relationships : List Relationship
  pub rag_chunks : Option (List IndexedChunk)
  pub rag_retrieval_runs : Option (List RetrievalRun)

module _ {A : Type 0} (same : A → A → Bool) where
  -- `INSERT … ON CONFLICT(key) DO UPDATE SET` every other column: the row takes the place of the one with
  -- its key.
  abbrev pub replace_row : A → List A → List A
  replace_row row rows = map (λ old. if same old row then row else old) rows

  abbrev pub has_row : A → List A → Bool
  has_row row rows = any (λ old. same old row) rows

  unfoldable pub upsert : A → List A → List A
  upsert row rows = if has_row row rows then replace_row row rows else rows ++ row ∷ []

  -- A new row needs its parent, by a foreign key.
  unfoldable pub upsert_child : Bool → A → List A → Result Error (List A)
  upsert_child parent row rows =
      if has_row row rows
      then ok (replace_row row rows)
      else if parent
      then ok (rows ++ row ∷ [])
      else err "FOREIGN KEY constraint failed"

  -- `INSERT OR IGNORE`, which ignores a row whose key is there, and no foreign key.
  unfoldable pub insert_or_ignore : Bool → A → List A → Result Error (List A)
  insert_or_ignore parent row rows =
      if has_row row rows
      then ok rows
      else if parent
      then ok (rows ++ row ∷ [])
      else err "FOREIGN KEY constraint failed"

abbrev pub has_host : Catalog → String → Bool
has_host c host_id = any (λ row. row.host.host_id =ₜ host_id) c.hosts

abbrev pub hash_covers : Option String → String → Bool
hash_covers none source_hash = true
hash_covers (some hash) source_hash = hash =ₜ source_hash

abbrev pub covers : String → String → String → String → Tombstone → Bool
covers host_id provider_id native_id source_hash t =
    t.host_id =ₜ host_id
    && t.provider_id =ₜ provider_id
    && t.native_id =ₜ native_id
    && hash_covers t.source_hash source_hash

unfoldable pub is_policy_tombstoned : List Tombstone → String → String → String → String → Bool
is_policy_tombstoned tombstones host_id provider_id native_id source_hash =
    any (covers host_id provider_id native_id source_hash) tombstones

-- The row has this id.
abbrev pub has_artifact_id : String → ArtifactRow → Bool
has_artifact_id artifact_id row = row.artifact_id =ₜ artifact_id

-- The row is this version of a source.
abbrev pub is_version : String → String → String → String → ArtifactRow → Bool
is_version host_id provider_id native_id source_hash row =
    row.host_id =ₜ host_id
    && row.provider_id =ₜ provider_id
    && row.native_id =ₜ native_id
    && row.source_hash =ₜ source_hash
