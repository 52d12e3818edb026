-- ===== src/Storage/Forget/Forgotten.antt =====
-- A memory that `forget_memory_record` of crates/amcp-storage/src/lib.rs has deleted, and the
-- collections after it.
use mathlib.Core.Path.{subst}
use agent_memory_control_pla.Prelude.{
  any-append_last, ℕ, String, ◌≡◌, sym, ap, inl, inr, Bool, true, false, ◌&&◌, List, [], ◌∷◌, arith,
  any, ◌=ₜ◌, eq_iff, All, All-append,
}
use agent_memory_control_pla.Prelude.Result.{ok}
use agent_memory_control_pla.Domain.Records.{ArtifactRecord, MemoryRecord}
use agent_memory_control_pla.Storage.Catalog.{
  ArtifactRow, SearchRow, Tombstone, upsert, has_row, replace_row, is_policy_tombstoned, is_version,
}
use agent_memory_control_pla.Storage.Key
use agent_memory_control_pla.Storage.Ingest.{put_artifact, update_artifact, refresh, row_of}
use agent_memory_control_pla.Storage.Ingest.Artifact.{put_artifact-cases}
use agent_memory_control_pla.Storage.Ingest.Keeps.{Keeps}
use agent_memory_control_pla.Storage.Forget.{is_memory}

module _ {A : Type 0} (P : A → Type 0) (same : A → A → Bool) where
  All-replace_row :
      (row : A) (rows : List A) → P row → All P rows → All P (replace_row same row rows)
  All-replace_row row [] p h = tt
  All-replace_row row (x ∷ xs) p h =
      let rest = All-replace_row row xs p h.1 in ground (arith, p, h.0, rest)

  pub All-upsert : (row : A) (rows : List A) → P row → All P rows → All P (upsert same row rows)
  unfolding upsert
  All-upsert row rows p h =
      let replaced = All-replace_row row rows p h in
      let appended = All-append P rows (row ∷ []) h (p, tt) in ground (arith, replaced, appended)

module _ {A : Type 0} (q : A → Bool) (same : A → A → Bool) where
  any-replace_row :
      (row : A) (rows : List A)
      → q row ≡ true
      → has_row same row rows ≡ true
      → any q (replace_row same row rows) ≡ true
  any-replace_row row [] h k = k
  any-replace_row row (x ∷ xs) h k = ground (arith, any-replace_row row xs h)

  pub any-upsert : (row : A) (rows : List A) → q row ≡ true → any q (upsert same row rows) ≡ true
  unfolding upsert
  any-upsert row rows h = ground (arith, any-replace_row row rows h, any-append_last q row rows h)

module _ (memory_record_id host_id provider_id native_id source_hash : String) where
  abbrev pub is_forgotten : MemoryRecord → Bool
  is_forgotten m =
      is_memory memory_record_id host_id provider_id m
      && (m.source_reference =ₜ native_id && m.source_hash =ₜ source_hash)

  -- The version is covered by a tombstone, and neither the memory nor an artifact has it.
  abbrev pub IsForgotten :
      ℕ → List Tombstone → List MemoryRecord → List ArtifactRow → List SearchRow → Type 0
  IsForgotten n tombstones memories artifacts search =
      (is_policy_tombstoned tombstones host_id provider_id native_id source_hash ≡ true)
      × All (λ m. is_forgotten m ≡ false) memories
      × All (λ row. is_version host_id provider_id native_id source_hash row ≡ false) artifacts

  -- What no tombstone covers is another version.
  other_version :
      (tombstones : List Tombstone) (h p n s : String)
      → is_policy_tombstoned tombstones host_id provider_id native_id source_hash ≡ true
      → is_policy_tombstoned tombstones h p n s ≡ false
      → (h =ₜ host_id && p =ₜ provider_id && n =ₜ native_id && s =ₜ source_hash) ≡ false
  other_version tombstones h p n s covered allowed =
      grind
        (arith, eq_iff h host_id, eq_iff p provider_id, eq_iff n native_id, eq_iff s source_hash)

  memory_apart :
      (tombstones : List Tombstone) (row : MemoryRecord)
      → is_policy_tombstoned tombstones host_id provider_id native_id source_hash ≡ true
      → is_policy_tombstoned tombstones row.host_id row.provider_id row.source_reference
          row.source_hash
        ≡ false
      → is_forgotten row ≡ false
  memory_apart tombstones row covered allowed =
      let other =
        other_version tombstones row.host_id row.provider_id row.source_reference row.source_hash
          covered allowed in
      ground (arith, other)

  All-update_artifact :
      (a : ArtifactRecord) (artifact_id : String) (rows : List ArtifactRow)
      → All (λ row. is_version host_id provider_id native_id source_hash row ≡ false) rows
      → All
          (λ row. is_version host_id provider_id native_id source_hash row ≡ false)
          (update_artifact a artifact_id rows)
  unfolding refresh
  All-update_artifact a artifact_id [] h = tt
  All-update_artifact a artifact_id (row ∷ rows) h =
      let rest = All-update_artifact a artifact_id rows h.1 in ground (arith, h.0, rest)

  All-put_artifact :
      (a : ArtifactRecord) (n : ℕ) (rows : List ArtifactRow) (artifact_id : String) (n' : ℕ)
      (rows' : List ArtifactRow)
      → is_version host_id provider_id native_id source_hash (row_of a) ≡ false
      → put_artifact a n rows ≡ ok (artifact_id, n', rows')
      → All (λ row. is_version host_id provider_id native_id source_hash row ≡ false) rows
      → All (λ row. is_version host_id provider_id native_id source_hash row ≡ false) rows'
  All-put_artifact a n rows artifact_id n' rows' other h all =
      let P : ArtifactRow → Type 0 =
        λ row. is_version host_id provider_id native_id source_hash row ≡ false in
      elim (put_artifact-cases a n rows _ h) [
        | inl updated ↦
            subst (All P) (sym (ap (λ s. s.2) updated.result))
              (All-update_artifact a updated.existing.artifact_id rows all)
        | inr inserted ↦
            subst (All P) (sym (ap (λ s. s.2) inserted.result))
              (All-append P rows (row_of a ∷ []) all (other, tt))
      ]

  other_row :
      (tombstones : List Tombstone) (a : ArtifactRecord)
      → is_policy_tombstoned tombstones host_id provider_id native_id source_hash ≡ true
      → is_policy_tombstoned tombstones a.host_id a.provider_id a.native_id
          a.observation.source_hash
        ≡ false
      → is_version host_id provider_id native_id source_hash (row_of a) ≡ false
  unfolding row_of
  other_row tombstones a =
      other_version tombstones a.host_id a.provider_id a.native_id a.observation.source_hash

  pub IsForgotten-keeps : Keeps IsForgotten
  IsForgotten-keeps = record {
    memory = λ n tombstones memories artifacts search row allowed q. (
      q.0,
      All-upsert (λ m. is_forgotten m ≡ false) Key.memory row memories
          (memory_apart tombstones row q.0 allowed) q.1,
      q.2,
    );
    artifact = λ n tombstones memories artifacts search a artifact_id n' artifacts' allowed h q. (
      q.0,
      q.1,
      All-put_artifact a n artifacts artifact_id n' artifacts' (other_row tombstones a q.0 allowed)
          h q.2,
    );
  }
