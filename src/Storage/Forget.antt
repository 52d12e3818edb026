-- ===== src/Storage/Forget.antt =====
-- `forget_memory_record` of crates/amcp-storage/src/lib.rs: one transaction, which an error rolls back.
pub mod Forgotten
pub mod Stays
pub mod Consistent
use agent_memory_control_pla.Prelude.{
  ℕ, String, Bool, true, false, not, ◌&&◌, ◌||◌, Option, none, some, List, [], ◌∷◌, ◌++◌, any, ◌=ₜ◌,
  option_text_eq, if◌then◌else◌, length, keep, map,
}
use agent_memory_control_pla.Prelude.Result.{Result, ok, err, ◌>>=◌, ◌>>◌, refuse_if}
use agent_memory_control_pla.Prelude.Texts.{is_blank}
use agent_memory_control_pla.Domain.Records.{EvidenceSnapshot, MemoryRecord}
use agent_memory_control_pla.Agent.Store.{Error}
use agent_memory_control_pla.Rag.Types.{IndexedChunk}
use agent_memory_control_pla.Rag.Config.{is_empty, done_unless}
use agent_memory_control_pla.Rag.Store.{RetrievalRun, delete_records}
use agent_memory_control_pla.Storage.Catalog.{
  Catalog, ArtifactRow, ObservationRow, Tombstone, upsert, has_artifact_id,
}
use agent_memory_control_pla.Storage.Ingest.{is_entry}

pub record MemoryForgetReceipt : Type 0 where
  pub memory_record_id : String
  pub host_id : String
  pub provider_id : String
  pub tombstone_id : String
  pub deleted_artifacts : ℕ
  pub deleted_rag_chunks : ℕ
  pub cleared_retrieval_runs : ℕ
  pub deleted_at : ℕ

abbrev pub is_memory : String → String → String → MemoryRecord → Bool
is_memory memory_record_id host_id provider_id memory =
    memory.memory_record_id =ₜ memory_record_id
    && memory.host_id =ₜ host_id
    && memory.provider_id =ₜ provider_id

-- `query_row(…).optional()`
abbrev pub first_memory : (MemoryRecord → Bool) → List MemoryRecord → Option MemoryRecord
first_memory p [] = none
first_memory p (memory ∷ memories) =
    let rest = first_memory p memories in if p memory then some memory else rest

-- The artifact is of this native source, in any version.
abbrev pub is_native : String → String → String → ArtifactRow → Bool
is_native host_id provider_id native_id row =
    row.host_id =ₜ host_id && row.provider_id =ₜ provider_id && row.native_id =ₜ native_id

abbrev pub observes : String → List ObservationRow → EvidenceSnapshot → Bool
observes artifact_id observations evidence =
    any
      (λ row.
        row.artifact_id =ₜ artifact_id && row.observation.observation_id =ₜ evidence.observation_id)
      observations

-- The deletions of one artifact, those that cascade included.
unfoldable pub delete_artifact : String → Catalog → Catalog
delete_artifact artifact_id c = record c {
  evidence_snapshots =
      keep (λ evidence. not (observes artifact_id c.source_observations evidence))
        c.evidence_snapshots;
  source_observations = keep (λ row. not (row.artifact_id =ₜ artifact_id)) c.source_observations;
  search_content = keep (λ row. not (is_entry artifact_id row)) c.search_content;
  artifacts = keep (λ row. not (has_artifact_id artifact_id row)) c.artifacts;
  artifact_tags = keep (λ tag. not (tag.artifact_id =ₜ artifact_id)) c.artifact_tags;
  cross_host_relationships =
      keep (λ r. not (r.left_artifact_id =ₜ artifact_id || r.right_artifact_id =ₜ artifact_id))
        c.cross_host_relationships;
}

unfoldable pub delete_artifacts : List String → Catalog → Catalog
delete_artifacts [] c = c
delete_artifacts (artifact_id ∷ artifact_ids) c =
    delete_artifacts artifact_ids (delete_artifact artifact_id c)

-- `DELETE FROM rag_chunks WHERE record_id = ?1` for each artifact, if the table is there.
abbrev pub delete_chunks : List String → Option (List IndexedChunk) → ℕ × Option (List IndexedChunk)
delete_chunks artifact_ids none = (0, none)
delete_chunks artifact_ids (some rows) =
    let (removed, left) = delete_records artifact_ids rows 0 in (removed, some left)

abbrev pub clear_runs : List String → Option (List RetrievalRun) → ℕ × Option (List RetrievalRun)
clear_runs artifact_ids none = (0, none)
clear_runs artifact_ids (some runs) =
    if is_empty artifact_ids then (0, some runs) else (length runs, some [])

abbrev pub same_version : Tombstone → Tombstone → Bool
same_version a b =
    a.host_id =ₜ b.host_id
    && a.provider_id =ₜ b.provider_id
    && a.native_id =ₜ b.native_id
    && option_text_eq a.source_hash b.source_hash

abbrev pub or_missing : Option MemoryRecord → Result Error MemoryRecord
or_missing none = err "memory record is not indexed in the requested host/provider scope"
or_missing (some memory) = ok memory

module _ (memory_record_id host_id provider_id : String) where
  abbrev pub artifact_ids_of : MemoryRecord → Catalog → List String
  artifact_ids_of memory c =
      map (λ row. row.artifact_id)
        (keep (is_native host_id provider_id memory.source_reference) c.artifacts)

  abbrev pub tombstone_of : String → String → ℕ → MemoryRecord → Tombstone
  tombstone_of reason tombstone_id now memory = record {
    tombstone_id = tombstone_id;
    host_id = host_id;
    provider_id = provider_id;
    native_id = memory.source_reference;
    source_hash = some memory.source_hash;
    reason = reason;
    created_at = now;
  }

  -- The catalog without the memory and its artifacts, and with the tombstone.
  unfoldable pub without_memory : String → String → ℕ → MemoryRecord → Catalog → Catalog
  unfolding delete_artifacts
  without_memory reason tombstone_id now memory c =
      let artifact_ids = artifact_ids_of memory c in
      let left = delete_artifacts artifact_ids c in
      record left {
        rag_chunks = (delete_chunks artifact_ids c.rag_chunks).1;
        rag_retrieval_runs = (clear_runs artifact_ids c.rag_retrieval_runs).1;
        memory_records =
            keep (λ m. not (is_memory memory_record_id host_id provider_id m)) c.memory_records;
        policy_tombstones =
            upsert same_version (tombstone_of reason tombstone_id now memory) c.policy_tombstones;
      }

  -- What the transaction computes.
  unfoldable pub forget_transaction :
      String → String → ℕ → Catalog → Result Error (MemoryForgetReceipt × Catalog)
  forget_transaction reason tombstone_id now c = do
    refuse_if (is_blank reason) "central memory deletion requires a reason"
    memory ←
        or_missing (first_memory (is_memory memory_record_id host_id provider_id) c.memory_records)
    refuse_if (any (λ t. t.tombstone_id =ₜ tombstone_id) c.policy_tombstones)
        "UNIQUE constraint failed: policy_tombstones.tombstone_id"
    ok (
      record {
        memory_record_id = memory_record_id;
        host_id = host_id;
        provider_id = provider_id;
        tombstone_id = tombstone_id;
        deleted_artifacts = length (artifact_ids_of memory c);
        deleted_rag_chunks = (delete_chunks (artifact_ids_of memory c) c.rag_chunks).0;
        cleared_retrieval_runs = (clear_runs (artifact_ids_of memory c) c.rag_retrieval_runs).0;
        deleted_at = now;
      },
      without_memory reason tombstone_id now memory c,
    )

  unfoldable pub forget_memory_record :
      Option Error
      → Option Error
      → String
      → String
      → ℕ
      → Catalog
      → Result Error MemoryForgetReceipt × Catalog
  unfolding forget_transaction
  forget_memory_record (some e) restrict reason tombstone_id now c =
      (if is_blank reason then err "central memory deletion requires a reason" else err e, c)
  forget_memory_record none restrict reason tombstone_id now c =
      elim (forget_transaction reason tombstone_id now c) [
        | err e ↦ (err e, c)
        | ok (receipt, c') ↦ (done_unless restrict receipt, c')
      ]
