-- ===== src/Storage/Ingest.antt =====
-- `ingest` of crates/amcp-storage/src/lib.rs: one transaction, which an error rolls back.
pub mod Keeps
pub mod Committed
pub mod Artifact
pub mod Consistent
pub mod Counted
use agent_memory_control_pla.Prelude.{
  ℕ, suc, String, Bool, true, false, not, ◌&&◌, Option, none, some, List, [], ◌∷◌, ◌++◌, any, ◌=ₜ◌,
  if◌then◌else◌, length, keep, map,
}
use agent_memory_control_pla.Prelude.Result.{Result, ok, err, ◌>>=◌}
use agent_memory_control_pla.Domain.Records.{
  SourceObservation, EvidenceSnapshot, ArtifactRecord, ProjectRecord, SessionRecord, SessionItem,
  MemoryRecord, ConfigLayerRecord, GuidanceRecord, GuidanceEdge, RuntimeEvent, ProviderDescriptor,
  CollectionBatch,
}
use agent_memory_control_pla.Agent.Store.{Error}
use agent_memory_control_pla.Rag.Config.{done_unless}
use agent_memory_control_pla.Storage.Key
use agent_memory_control_pla.Storage.Put
use agent_memory_control_pla.Storage.Catalog.{
  Catalog, HostRow, ProviderRow, ArtifactRow, ObservationRow, SearchRow, CursorRow, IndexRun,
  upsert, upsert_child, insert_or_ignore, has_row, has_host, is_policy_tombstoned, has_artifact_id,
  is_version,
}

-- A loop whose body fails with `?`.
abbrev pub each : {A S : Type 0} → (A → S → Result Error S) → List A → S → Result Error S
each f [] s = ok s
each f (x ∷ xs) s = f x s >>= each f xs

-- The first row that a test finds.
abbrev pub find : (ArtifactRow → Bool) → List ArtifactRow → Option ArtifactRow
find p [] = none
find p (row ∷ rows) = let rest = find p rows in if p row then some row else rest

unfoldable pub row_of : ArtifactRecord → ArtifactRow
row_of artifact = record {
  artifact_id = artifact.artifact_id;
  host_id = artifact.host_id;
  provider_id = artifact.provider_id;
  project_id = artifact.project_id;
  native_id = artifact.native_id;
  kind = artifact.kind;
  title = artifact.title;
  source_reference = artifact.source_reference;
  content = artifact.content;
  sensitivity = artifact.sensitivity;
  lifecycle = artifact.lifecycle;
  observed_at = artifact.observation.observed_at;
  source_hash = artifact.observation.source_hash;
}

-- `UPDATE artifacts SET …`, on the row of the artifact.
unfoldable pub refresh : ArtifactRecord → ArtifactRow → ArtifactRow
refresh artifact row = record row {
  project_id = artifact.project_id;
  kind = artifact.kind;
  title = artifact.title;
  source_reference = artifact.source_reference;
  content = artifact.content;
  sensitivity = artifact.sensitivity;
  lifecycle = artifact.lifecycle;
  observed_at = artifact.observation.observed_at;
}

abbrev pub update_artifact : ArtifactRecord → String → List ArtifactRow → List ArtifactRow
update_artifact artifact artifact_id rows =
    map (λ row. if has_artifact_id artifact_id row then refresh artifact row else row) rows

-- `effective_artifact_id`, the count of insertions and the rows.
unfoldable pub put_artifact :
    ArtifactRecord → ℕ → List ArtifactRow → Result Error (String × ℕ × List ArtifactRow)
put_artifact artifact inserted rows =
    elim (find
      (is_version artifact.host_id artifact.provider_id artifact.native_id
        artifact.observation.source_hash)
      rows) [
        | some existing ↦
            ok (existing.artifact_id, inserted, update_artifact artifact existing.artifact_id rows)
        | none ↦
            if any (has_artifact_id artifact.artifact_id) rows
            then err "UNIQUE constraint failed: artifacts.artifact_id"
            else ok (artifact.artifact_id, suc inserted, rows ++ row_of artifact ∷ [])
      ]

-- The observation refers to an artifact that is there.
unfoldable pub put_observation : String → SourceObservation → Catalog → Result Error Catalog
put_observation artifact_id observation c = do
  rows ←
      insert_or_ignore Key.observation true
        (record { artifact_id = artifact_id; observation = observation }) c.source_observations
  ok (record c { source_observations = rows })

unfoldable pub put_evidence : Option EvidenceSnapshot → Catalog → Result Error Catalog
put_evidence none c = ok c
put_evidence (some evidence) c = do
  rows ←
      insert_or_ignore Key.evidence
        (any (λ row. row.observation.observation_id =ₜ evidence.observation_id)
          c.source_observations)
        evidence c.evidence_snapshots
  ok (record c { evidence_snapshots = rows })

abbrev pub is_entry : String → SearchRow → Bool
is_entry artifact_id row = row.artifact_id =ₜ artifact_id

abbrev pub entry_of : String → ArtifactRecord → SearchRow
entry_of artifact_id artifact = record {
  artifact_id = artifact_id;
  title = artifact.title;
  content = artifact.content;
  source_reference = artifact.source_reference;
  host_id = artifact.host_id;
  provider_id = artifact.provider_id;
}

unfoldable pub put_search : String → ArtifactRecord → List SearchRow → List SearchRow
put_search artifact_id artifact rows =
    keep (λ row. not (is_entry artifact_id row)) rows ++ entry_of artifact_id artifact ∷ []

-- An artifact that no tombstone covers.
unfoldable pub take_artifact : ArtifactRecord → ℕ × Catalog → Result Error (ℕ × Catalog)
take_artifact artifact (inserted, c) = do
  (artifact_id, inserted', rows) ← put_artifact artifact inserted c.artifacts
  c₁ ← put_observation artifact_id artifact.observation (record c { artifacts = rows })
  c₂ ← put_evidence artifact.evidence c₁
  ok (inserted', record c₂ { search_content = put_search artifact_id artifact c₂.search_content })

-- The body of the loop over the artifacts, with the count of insertions.
unfoldable pub ingest_artifact : ArtifactRecord → ℕ × Catalog → Result Error (ℕ × Catalog)
unfolding take_artifact
ingest_artifact artifact s =
    if is_policy_tombstoned s.1.policy_tombstones artifact.host_id artifact.provider_id
      artifact.native_id artifact.observation.source_hash
    then ok s
    else take_artifact artifact s

-- The loops, up to the one over the artifacts.
unfoldable pub ingest_records : CollectionBatch → ℕ → Catalog → Result Error Catalog
unfolding Put.host
ingest_records batch now c = do
  c₁ ←
      each (Put.provider batch.host.host_id) batch.providers
        (Put.host (record { host = batch.host; last_seen = now }) c)
  c₂ ← each Put.project batch.projects c₁
  c₃ ← each Put.session batch.sessions c₂
  c₄ ← each Put.session_item batch.session_items c₃
  c₅ ← each Put.memory batch.memory_records c₄
  c₆ ← each Put.layer batch.config_layers c₅
  c₇ ← each Put.guidance batch.guidance_records c₆
  c₈ ← each Put.edge batch.guidance_edges c₇
  each Put.event batch.runtime_events c₈

abbrev pub last_id : List ArtifactRecord → Option String
last_id [] = none
last_id (artifact ∷ artifacts) = elim (last_id artifacts) [
  | none ↦ some artifact.artifact_id
  | some artifact_id ↦ some artifact_id
]

-- The row of `index_runs`, unless there are no artifacts.
unfoldable pub add_run :
    List ArtifactRecord → String → ℕ → ℕ → List IndexRun → Result Error (List IndexRun)
add_run [] index_run_id started_at now runs = ok runs
add_run (artifact ∷ artifacts) index_run_id started_at now runs =
    if any (λ run. run.run_id =ₜ index_run_id) runs
    then err "UNIQUE constraint failed: index_runs.run_id"
    else ok (
        runs
        ++ (record {
          run_id = index_run_id;
          mode = "incremental";
          status = "completed";
          started_at = started_at;
          completed_at = some now;
          indexed_count = length (artifact ∷ artifacts);
          last_artifact_id = last_id (artifact ∷ artifacts);
          error = none;
        })
          ∷ [])

unfoldable pub note_run : CollectionBatch → String → ℕ → ℕ → Catalog → Result Error Catalog
note_run batch index_run_id started_at now c = do
  runs ← add_run batch.artifacts index_run_id started_at now c.index_runs
  ok (record c { index_runs = runs })

-- What the transaction computes. The times are those of the statements.
unfoldable pub transaction : CollectionBatch → String → ℕ → ℕ → Catalog → Result Error (ℕ × Catalog)
unfolding ingest_records
transaction batch index_run_id started_at now c = do
  c₁ ← ingest_records batch now c
  (inserted, c₂) ← each ingest_artifact batch.artifacts (0, c₁)
  c₃ ← each (Put.cursor batch now) batch.providers c₂
  c₄ ← note_run batch index_run_id started_at now c₃
  ok (inserted, c₄)

-- The faults are the error of the database, if it fails, and of the file permissions set afterwards.
unfoldable pub ingest :
    Option Error
    → Option Error
    → String
    → ℕ
    → ℕ
    → CollectionBatch
    → Catalog
    → Result Error ℕ × Catalog
unfolding transaction
ingest (some e) restrict index_run_id started_at now batch c = (err e, c)
ingest none restrict index_run_id started_at now batch c =
    elim (transaction batch index_run_id started_at now c) [
      | err e ↦ (err e, c)
      | ok (inserted, c') ↦ (done_unless restrict inserted, c')
    ]
