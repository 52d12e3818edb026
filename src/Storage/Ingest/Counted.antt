-- ===== src/Storage/Ingest/Counted.antt =====
-- What `ingest` of crates/amcp-storage/src/lib.rs counts as inserted.
use mathlib.Core.Path.{subst}
use agent_memory_control_pla.Prelude.{
  ℕ, ◌+◌, String, ◌≡◌, sym, ◌∙◌, inl, inr, Option, List, [], ◌∷◌, arith, length, length-map,
  length-append,
}
use agent_memory_control_pla.Prelude.Result.{ok}
use agent_memory_control_pla.Domain.Records.{ArtifactRecord, MemoryRecord, CollectionBatch}
use agent_memory_control_pla.Agent.Store.{Error}
use agent_memory_control_pla.Storage.Catalog.{
  Catalog, ArtifactRow, SearchRow, Tombstone, has_artifact_id,
}
use agent_memory_control_pla.Storage.Ingest.{put_artifact, put_search, row_of, ingest}
use agent_memory_control_pla.Storage.Ingest.Artifact.{put_artifact-cases, version_of}
use agent_memory_control_pla.Storage.Ingest.Keeps.{Keeps}
use agent_memory_control_pla.Storage.Ingest.Committed.{ingest_keeps}
use agent_memory_control_pla.Storage.Ingest.Consistent.{
  IsConsistent, updated-IsConsistent, inserted-IsConsistent, find_counted, find-none, any_none,
}

-- So many artifacts are there beyond those from before.
abbrev Counted :
    ℕ → ℕ → List Tombstone → List MemoryRecord → List ArtifactRow → List SearchRow → Type 0
Counted before n tombstones memories artifacts rows =
    (length artifacts ≡ before + n) × IsConsistent artifacts rows

put_artifact-Counted :
    (before n : ℕ) (tombstones : List Tombstone) (memories : List MemoryRecord)
    (artifacts : List ArtifactRow) (rows : List SearchRow) (a : ArtifactRecord)
    (s : String × ℕ × List ArtifactRow)
    → put_artifact a n artifacts ≡ ok s
    → Counted before n tombstones memories artifacts rows
    → Counted before s.1 tombstones memories s.2 (put_search s.0 a rows)
put_artifact-Counted before n tombstones memories artifacts rows a s h (total, consistent) =
    let Q : String × ℕ × List ArtifactRow → Type 0 =
      λ t. Counted before t.1 tombstones memories t.2 (put_search t.0 a rows) in
    elim (put_artifact-cases a n artifacts s h) [
      | inl u ↦
          let there = find_counted (version_of a) artifacts u.existing u.found in
          subst Q (sym u.result) (
            length-map _ artifacts ∙ total,
            updated-IsConsistent a u.existing.artifact_id artifacts rows there consistent,
          )
      | inr i ↦ subst Q (sym i.result) (
        omega (arith, total, length-append artifacts (row_of a ∷ [])),
        inserted-IsConsistent a artifacts rows (find-none (version_of a) artifacts i.missing)
            (any_none (has_artifact_id a.artifact_id) artifacts i.fresh) consistent,
      )
    ]

Counted-Keeps : (before : ℕ) → Keeps (Counted before)
Counted-Keeps before = record {
  memory = λ n tombstones memories artifacts rows row allowed q. q;
  artifact = λ n tombstones memories artifacts rows a artifact_id n' artifacts' allowed h q.
      put_artifact-Counted before n tombstones memories artifacts rows a
        (artifact_id, n', artifacts') h q;
}

-- A collection keeps ids and versions of artifacts unique and the search entries in step with them,
-- whether it is committed or rolled back, and what it reports as inserted is by how much the table of
-- artifacts has grown.
pub ingest-IsConsistent :
    (fault restrict : Option Error) (index_run_id : String) (started_at now : ℕ)
    (batch : CollectionBatch) (c : Catalog)
    → IsConsistent c.artifacts c.search_content
    → IsConsistent
        (ingest fault restrict index_run_id started_at now batch c).1.artifacts
        (ingest fault restrict index_run_id started_at now batch c).1.search_content
      × ((n : ℕ)
          → (ingest fault restrict index_run_id started_at now batch c).0 ≡ ok n
          → length (ingest fault restrict index_run_id started_at now batch c).1.artifacts
            ≡ length c.artifacts + n)
ingest-IsConsistent fault restrict index_run_id started_at now batch c h =
    let (n, (total, consistent), reported) =
      ingest_keeps (Counted (length c.artifacts)) (Counted-Keeps (length c.artifacts)) fault
        restrict index_run_id started_at now batch c (omega arith, h) in
    (consistent, λ m e. omega (arith, total, reported m e))
