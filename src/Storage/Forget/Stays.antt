-- ===== src/Storage/Forget/Stays.antt =====
-- What `forget_memory_record` of crates/amcp-storage/src/lib.rs deletes does not come back with the
-- collections that follow.
use mathlib.Core.Path.{subst}
use agent_memory_control_pla.Prelude.{
  ℕ, String, ◌≡◌, refl, sym, ◌∙◌, ap, inl, inr, Bool, true, false, not, Option, none, some, List,
  [], ◌∷◌, arith, any, ◌=ₜ◌, eq_iff, keep, map, All, keep-keep, keep_same, keep_all,
}
use agent_memory_control_pla.Prelude.Members.{In, All_In, All_map, All-keep_both}
use agent_memory_control_pla.Prelude.Result.{
  ok, err, Result-cases, ok_injective, ok_not_err, bind_ok, then_ok, refuse_if,
}
use agent_memory_control_pla.Prelude.Texts.{is_blank, contains}
use agent_memory_control_pla.Domain.Records.{MemoryRecord, CollectionBatch}
use agent_memory_control_pla.Agent.Store.{Error}
use agent_memory_control_pla.Storage.Catalog.{
  Catalog, ArtifactRow, is_policy_tombstoned, covers, is_version, has_artifact_id,
}
use agent_memory_control_pla.Storage.Ingest.{ingest}
use agent_memory_control_pla.Storage.Ingest.Keeps.{Holds}
use agent_memory_control_pla.Storage.Ingest.Committed.{ingest_keeps}
use agent_memory_control_pla.Storage.Forget.{
  MemoryForgetReceipt, is_memory, first_memory, or_missing, is_native, delete_artifact,
  delete_artifacts, same_version, artifact_ids_of, tombstone_of, without_memory, forget_transaction,
  forget_memory_record,
}
use agent_memory_control_pla.Storage.Forget.Forgotten.{
  is_forgotten, IsForgotten, IsForgotten-keeps, any-upsert,
}

pub delete_artifacts-kept :
    (artifact_ids : List String) (c : Catalog)
    → (delete_artifacts artifact_ids c).artifacts
      ≡ keep (λ row. not (contains artifact_ids row.artifact_id)) c.artifacts
unfolding delete_artifacts delete_artifact
delete_artifacts-kept [] c =
    sym (keep_all _ c.artifacts (All_map (λ row h. refl) c.artifacts (All_In c.artifacts)))
delete_artifacts-kept (artifact_id ∷ artifact_ids) c =
    delete_artifacts-kept artifact_ids (delete_artifact artifact_id c)
    ∙ (keep-keep (λ row. not (contains artifact_ids row.artifact_id))
          (λ row. not (has_artifact_id artifact_id row)) c.artifacts
        ∙ keep_same _ (λ row. not (contains (artifact_id ∷ artifact_ids) row.artifact_id))
            (λ row.
              ground
                (arith, eq_iff artifact_id row.artifact_id, eq_iff row.artifact_id artifact_id))
            c.artifacts)

In-listed :
    (p : ArtifactRow → Bool) (rows : List ArtifactRow) (row : ArtifactRow)
    → In row rows
    → p row ≡ true
    → contains (map (λ r. r.artifact_id) (keep p rows)) row.artifact_id ≡ true
In-listed p [] row h k = absurd h
In-listed p (x ∷ rows) row (inl same) k =
    ground (arith, ap p same, ap (λ r. r.artifact_id) same, eq_iff x.artifact_id row.artifact_id)
In-listed p (x ∷ rows) row (inr h) k = ground (arith, In-listed p rows row h k)

module _ (memory_record_id host_id provider_id : String) where
  none_left :
      (memory : MemoryRecord) (c : Catalog) (row : ArtifactRow)
      → In row c.artifacts
      → not
          (contains (artifact_ids_of memory_record_id host_id provider_id memory c) row.artifact_id)
        ≡ true
      → is_version host_id provider_id memory.source_reference memory.source_hash row ≡ false
  none_left memory c row h k =
      ground
        (arith, In-listed (is_native host_id provider_id memory.source_reference) c.artifacts row h)

  tombstone_covers :
      (reason tombstone_id : String) (now : ℕ) (memory : MemoryRecord)
      → covers host_id provider_id memory.source_reference memory.source_hash
          (tombstone_of memory_record_id host_id provider_id reason tombstone_id now memory)
        ≡ true
  tombstone_covers reason tombstone_id now memory = ground (
    arith,
    eq_iff host_id host_id,
    eq_iff provider_id provider_id,
    eq_iff memory.source_reference memory.source_reference,
    eq_iff memory.source_hash memory.source_hash,
  )

  without_memory-IsForgotten :
      (reason tombstone_id : String) (now : ℕ) (memory : MemoryRecord) (c : Catalog)
      → Holds
          (IsForgotten memory_record_id host_id provider_id memory.source_reference
            memory.source_hash)
          0
          (without_memory memory_record_id host_id provider_id reason tombstone_id now memory c)
  unfolding without_memory is_policy_tombstoned
  without_memory-IsForgotten reason tombstone_id now memory c =
      let tombstone =
        tombstone_of memory_record_id host_id provider_id reason tombstone_id now memory in
      let artifact_ids = artifact_ids_of memory_record_id host_id provider_id memory c in
      let forgotten : MemoryRecord → Bool =
        is_forgotten memory_record_id host_id provider_id memory.source_reference
          memory.source_hash in
      let others : MemoryRecord → Bool =
        λ m. not (is_memory memory_record_id host_id provider_id m) in
      let apart : All (λ m. forgotten m ≡ false) (keep others c.memory_records) =
        All_map (λ m h. ground (arith, h.1)) (keep others c.memory_records)
          (All-keep_both (λ m. In m c.memory_records) others c.memory_records
            (All_In c.memory_records)) in
      let kept : ArtifactRow → Bool = λ row. not (contains artifact_ids row.artifact_id) in
      let version : ArtifactRow → Bool =
        is_version host_id provider_id memory.source_reference memory.source_hash in
      let gone : All (λ row. version row ≡ false) (keep kept c.artifacts) =
        All_map (λ row h. none_left memory c row h.0 h.1) (keep kept c.artifacts)
          (All-keep_both (λ row. In row c.artifacts) kept c.artifacts (All_In c.artifacts)) in
      (
        any-upsert (covers host_id provider_id memory.source_reference memory.source_hash)
            same_version tombstone c.policy_tombstones
            (tombstone_covers reason tombstone_id now memory),
        apart,
        subst (All (λ row. version row ≡ false)) (sym (delete_artifacts-kept artifact_ids c)) gone,
      )

-- A call of `ingest`.
pub record Collection : Type 0 where
  pub fault : Option Error
  pub restrict : Option Error
  pub index_run_id : String
  pub started_at : ℕ
  pub now : ℕ
  pub batch : CollectionBatch

abbrev pub ingest_all : List Collection → Catalog → Catalog
ingest_all [] c = c
ingest_all (x ∷ xs) c =
    ingest_all xs (ingest x.fault x.restrict x.index_run_id x.started_at x.now x.batch c).1

module _ (memory_record_id host_id provider_id native_id source_hash : String) where
  ingest_all-IsForgotten :
      (xs : List Collection) (c : Catalog)
      → Holds (IsForgotten memory_record_id host_id provider_id native_id source_hash) 0 c
      → Holds
          (IsForgotten memory_record_id host_id provider_id native_id source_hash)
          0
          (ingest_all xs c)
  ingest_all-IsForgotten [] c h = h
  ingest_all-IsForgotten (x ∷ xs) c h =
      let (n, kept, _) =
        ingest_keeps _
          (IsForgotten-keeps memory_record_id host_id provider_id native_id source_hash) x.fault
          x.restrict x.index_run_id x.started_at x.now x.batch c h in
      ingest_all-IsForgotten xs _ kept

forget_transaction-without_memory :
    (memory_record_id host_id provider_id reason tombstone_id : String) (now : ℕ) (c : Catalog)
    (memory : MemoryRecord) (s : MemoryForgetReceipt × Catalog)
    → first_memory (is_memory memory_record_id host_id provider_id) c.memory_records ≡ some memory
    → forget_transaction memory_record_id host_id provider_id reason tombstone_id now c ≡ ok s
    → s.1 ≡ without_memory memory_record_id host_id provider_id reason tombstone_id now memory c
unfolding forget_transaction
forget_transaction-without_memory memory_record_id host_id provider_id reason tombstone_id now c
      memory s found h =
    let taken =
      then_ok (refuse_if (is_blank reason) "central memory deletion requires a reason") _ s h in
    let (m, e, rest) =
      bind_ok
        (or_missing
          (first_memory (is_memory memory_record_id host_id provider_id) c.memory_records))
        _ s taken in
    let done =
      then_ok
        (refuse_if (any (λ t. t.tombstone_id =ₜ tombstone_id) c.policy_tombstones)
          "UNIQUE constraint failed: policy_tombstones.tombstone_id")
        _ s rest in
    let same : m ≡ memory = ok_injective (sym e ∙ ap or_missing found) in
    sym (ap (λ r. r.1) (ok_injective done))
    ∙ ap (λ x. without_memory memory_record_id host_id provider_id reason tombstone_id now x c) same

-- Once a memory record is forgotten, neither the record nor an artifact of its source has the version it
-- had then, and no sequence of collections, of whatever content, brings that version back.
pub forget_memory_record_stays :
    (restrict : Option Error) (memory_record_id host_id provider_id reason tombstone_id : String)
    (now : ℕ) (c : Catalog) (memory : MemoryRecord) (receipt : MemoryForgetReceipt)
    (xs : List Collection)
    → first_memory (is_memory memory_record_id host_id provider_id) c.memory_records ≡ some memory
    → (forget_memory_record memory_record_id host_id provider_id none restrict reason tombstone_id
        now c).0
      ≡ ok receipt
    → All
        (λ m.
          is_forgotten memory_record_id host_id provider_id memory.source_reference
            memory.source_hash m
          ≡ false)
        (ingest_all xs
          (forget_memory_record memory_record_id host_id provider_id none restrict reason
            tombstone_id now c).1).memory_records
      × All
          (λ row.
            is_version host_id provider_id memory.source_reference memory.source_hash row ≡ false)
          (ingest_all xs
            (forget_memory_record memory_record_id host_id provider_id none restrict reason
              tombstone_id now c).1).artifacts
unfolding forget_memory_record
forget_memory_record_stays restrict memory_record_id host_id provider_id reason tombstone_id now c
      memory receipt xs found h =
    elim (Result-cases
      (forget_transaction memory_record_id host_id provider_id reason tombstone_id now c)) [
        | inl (e, failed) ↦
            let refused : (forget_memory_record memory_record_id host_id provider_id none restrict
                  reason tombstone_id now c).0
                ≡ err e =
              rw (failed, forget_memory_record) refl in
            absurd (ok_not_err (sym h ∙ refused))
        | inr (s, done) ↦
            let forgotten =
              subst
                (Holds
                  (IsForgotten memory_record_id host_id provider_id memory.source_reference
                    memory.source_hash)
                  0)
                (sym (
                  forget_transaction-without_memory memory_record_id host_id provider_id reason
                    tombstone_id now c memory s found done))
                (without_memory-IsForgotten memory_record_id host_id provider_id reason tombstone_id
                  now memory c) in
            let kept =
              ingest_all-IsForgotten memory_record_id host_id provider_id memory.source_reference
                memory.source_hash xs s.1 forgotten in
            rw (done, forget_memory_record) (kept.1, kept.2)
      ]
