-- ===== src/Storage/Forget/Consistent.antt =====
-- The artifacts and their search entries once `forget_memory_record` of crates/amcp-storage/src/lib.rs
-- has deleted some.
use mathlib.Core.Path.{subst}
use agent_memory_control_pla.Prelude.{
  ℕ, ◌≤◌, String, ◌≡◌, inl, inr, Bool, not, Option, none, some, List, [], ◌∷◌, arith, any, ◌=ₜ◌,
  eq_iff, if◌then◌else◌, keep,
}
use agent_memory_control_pla.Prelude.Result.{
  ok, Result-cases, ok_injective, bind_ok, then_ok, refuse_if,
}
use agent_memory_control_pla.Prelude.Texts.{is_blank}
use agent_memory_control_pla.Agent.Store.{Error}
use agent_memory_control_pla.Storage.Catalog.{
  Catalog, ArtifactRow, SearchRow, has_artifact_id, is_version,
}
use agent_memory_control_pla.Storage.Ingest.Consistent.{count, IsConsistent}
use agent_memory_control_pla.Storage.Forget.{
  MemoryForgetReceipt, is_memory, first_memory, or_missing, delete_artifact, delete_artifacts,
  artifact_ids_of, without_memory, forget_transaction, forget_memory_record,
}

module _ {A : Type 0} (id : A → String) where
  -- Deleting the rows of one id.
  count_without :
      (artifact_id x : String) (rows : List A)
      → count (λ row. id row =ₜ x) (keep (λ row. not (id row =ₜ artifact_id)) rows)
        ≡ (if artifact_id =ₜ x then 0 else count (λ row. id row =ₜ x) rows)
  count_without artifact_id x [] = ground arith
  count_without artifact_id x (row ∷ rows) = ground (
    arith,
    count_without artifact_id x rows,
    eq_iff artifact_id x,
    eq_iff (id row) x,
    eq_iff (id row) artifact_id,
  )

count-keep-le : {A : Type 0} (p q : A → Bool) (xs : List A) → count p (keep q xs) ≤ count p xs
count-keep-le p q [] = omega arith
count-keep-le p q (x ∷ xs) = ground (arith, count-keep-le p q xs)

abbrev IsTidy : Catalog → Type 0
IsTidy c = IsConsistent c.artifacts c.search_content

delete_artifact-IsTidy :
    (artifact_id : String) (c : Catalog) → IsTidy c → IsTidy (delete_artifact artifact_id c)
unfolding delete_artifact
delete_artifact-IsTidy artifact_id c h =
    let others : ArtifactRow → Bool = λ row. not (has_artifact_id artifact_id row) in
    record {
      ids = λ x. omega (arith, h.ids x, count-keep-le (has_artifact_id x) others c.artifacts);
      entries = λ x. ground (
        arith,
        count_without SearchRow.artifact_id artifact_id x c.search_content,
        count_without ArtifactRow.artifact_id artifact_id x c.artifacts,
        h.entries x,
      );
      versions = λ host_id provider_id native_id source_hash. omega (
        arith,
        h.versions host_id provider_id native_id source_hash,
        count-keep-le (is_version host_id provider_id native_id source_hash) others c.artifacts,
      );
    }

delete_artifacts-IsTidy :
    (artifact_ids : List String) (c : Catalog) → IsTidy c → IsTidy (delete_artifacts artifact_ids c)
unfolding delete_artifacts
delete_artifacts-IsTidy [] c h = h
delete_artifacts-IsTidy (artifact_id ∷ artifact_ids) c h =
    delete_artifacts-IsTidy artifact_ids (delete_artifact artifact_id c)
      (delete_artifact-IsTidy artifact_id c h)

module _ (memory_record_id host_id provider_id reason tombstone_id : String) (now : ℕ) where
  forget_transaction-IsTidy :
      (c : Catalog) (s : MemoryForgetReceipt × Catalog)
      → forget_transaction memory_record_id host_id provider_id reason tombstone_id now c ≡ ok s
      → IsTidy c
      → IsTidy s.1
  unfolding forget_transaction without_memory
  forget_transaction-IsTidy c s h k =
      let taken =
        then_ok (refuse_if (is_blank reason) "central memory deletion requires a reason") _ s h in
      let (memory, _, rest) =
        bind_ok
          (or_missing
            (first_memory (is_memory memory_record_id host_id provider_id) c.memory_records))
          _ s taken in
      let done =
        then_ok
          (refuse_if (any (λ t. t.tombstone_id =ₜ tombstone_id) c.policy_tombstones)
            "UNIQUE constraint failed: policy_tombstones.tombstone_id")
          _ s rest in
      let left =
        delete_artifacts-IsTidy (artifact_ids_of memory_record_id host_id provider_id memory c) c
          k in
      subst (λ r. IsTidy r.1) (ok_injective done) left

  pub forget_memory_record-IsTidy :
      (fault restrict : Option Error) (c : Catalog)
      → IsConsistent c.artifacts c.search_content
      → IsConsistent
          (forget_memory_record memory_record_id host_id provider_id fault restrict reason
            tombstone_id now c).1.artifacts
          (forget_memory_record memory_record_id host_id provider_id fault restrict reason
            tombstone_id now c).1.search_content
  unfolding forget_memory_record
  forget_memory_record-IsTidy (some e) restrict c h = h
  forget_memory_record-IsTidy none restrict c h =
      elim (Result-cases
        (forget_transaction memory_record_id host_id provider_id reason tombstone_id now c)) [
          | inl (e, failed) ↦ rw (failed, forget_memory_record) h
          | inr (s, done) ↦ rw (done, forget_memory_record) (forget_transaction-IsTidy c s done h)
        ]
