-- ===== src/Storage/Ingest/Artifact.antt =====
-- The two ways in which an artifact of a collection enters the table in crates/amcp-storage/src/lib.rs.
use agent_memory_control_pla.Prelude.{
  ℕ, suc, String, ◌≡◌, refl, sym, ◌∙◌, ◌⊎◌, inl, inr, Bool, false, none, some, List, [], ◌∷◌, ◌++◌,
  any, Bool-cases, Option-cases,
}
use agent_memory_control_pla.Prelude.Result.{ok, err, ok_injective, ok_not_err}
use agent_memory_control_pla.Domain.Records.{ArtifactRecord}
use agent_memory_control_pla.Storage.Catalog.{ArtifactRow, is_version, has_artifact_id}
use agent_memory_control_pla.Storage.Ingest.{put_artifact, update_artifact, row_of, find}

abbrev pub version_of : ArtifactRecord → ArtifactRow → Bool
version_of a = is_version a.host_id a.provider_id a.native_id a.observation.source_hash

-- The version is there, and its row is updated.
pub record Updated (a : ArtifactRecord) (n : ℕ) (rows : List ArtifactRow)
    (s : String × ℕ × List ArtifactRow) : Type 0 where
  pub existing : ArtifactRow
  pub found : find (version_of a) rows ≡ some existing
  pub result : s ≡ (existing.artifact_id, n, update_artifact a existing.artifact_id rows)

-- The version is new, with a new id.
pub record Inserted (a : ArtifactRecord) (n : ℕ) (rows : List ArtifactRow)
    (s : String × ℕ × List ArtifactRow) : Type 0 where
  pub missing : find (version_of a) rows ≡ none
  pub fresh : any (has_artifact_id a.artifact_id) rows ≡ false
  pub result : s ≡ (a.artifact_id, suc n, rows ++ row_of a ∷ [])

pub put_artifact-cases :
    (a : ArtifactRecord) (n : ℕ) (rows : List ArtifactRow) (s : String × ℕ × List ArtifactRow)
    → put_artifact a n rows ≡ ok s
    → Updated a n rows s ⊎ Inserted a n rows s
unfolding put_artifact
put_artifact-cases a n rows s h = elim (Option-cases (find (version_of a) rows)) [
  | inr (existing, found) ↦
      let updated : put_artifact a n rows
          ≡ ok (existing.artifact_id, n, update_artifact a existing.artifact_id rows) =
        rw (found, put_artifact) refl in
      inl (record { existing = existing; found = found; result = ok_injective (sym h ∙ updated) })
  | inl missing ↦ elim (Bool-cases (any (has_artifact_id a.artifact_id) rows)) [
    | inl used ↦
        let failed : put_artifact a n rows ≡ err "UNIQUE constraint failed: artifacts.artifact_id" =
          rw (missing, put_artifact) (rw used refl) in
        absurd (ok_not_err (sym h ∙ failed))
    | inr fresh ↦
        let inserted : put_artifact a n rows ≡ ok (a.artifact_id, suc n, rows ++ row_of a ∷ []) =
          rw (missing, put_artifact) (rw fresh refl) in
        inr (record { missing = missing; fresh = fresh; result = ok_injective (sym h ∙ inserted) })
  ]
]
