-- ===== src/Storage/Ingest/Committed.antt =====
-- What a whole collection keeps of the catalog, once `ingest` of crates/amcp-storage/src/lib.rs has
-- committed it or rolled it back.
use mathlib.Core.Path.{subst}
use agent_memory_control_pla.Prelude.{
  ℕ, String, ◌≡◌, sym, ◌∙◌, inl, inr, true, false, Option, none, some, List, any, ◌=ₜ◌, Bool-cases,
  if_true, if_false,
}
use agent_memory_control_pla.Prelude.Result.{ok, Result-cases, ok_injective, ok_not_err, bind_ok}
use agent_memory_control_pla.Domain.Records.{
  SourceObservation, EvidenceSnapshot, ArtifactRecord, MemoryRecord, ProviderDescriptor,
  CollectionBatch,
}
use agent_memory_control_pla.Agent.Store.{Error}
use agent_memory_control_pla.Rag.Config.{done_unless}
use agent_memory_control_pla.Storage.Catalog.{
  Catalog, ArtifactRow, SearchRow, Tombstone, insert_or_ignore, is_policy_tombstoned,
}
use agent_memory_control_pla.Storage.Key
use agent_memory_control_pla.Storage.Put
use agent_memory_control_pla.Storage.Ingest.{
  put_artifact, put_observation, put_evidence, put_search, ingest_artifact, take_artifact, add_run,
  note_run, transaction, ingest,
}
use agent_memory_control_pla.Storage.Ingest.Keeps.{
  Holds, Keeps, each_keeps, row_keeps, records_keep,
}

pub done_unless_ok : (restrict : Option Error) (n m : ℕ) → done_unless restrict n ≡ ok m → n ≡ m
done_unless_ok none n m h = ok_injective h
done_unless_ok (some e) n m h = absurd (ok_not_err (sym h))

module _
    (Q : ℕ → List Tombstone → List MemoryRecord → List ArtifactRow → List SearchRow → Type 0) where
  observation_keeps :
      (n : ℕ) (artifact_id : String) (observation : SourceObservation) (c c' : Catalog)
      → put_observation artifact_id observation c ≡ ok c'
      → Holds Q n c
      → Holds Q n c'
  unfolding put_observation
  observation_keeps n artifact_id observation c c' h p =
      row_keeps Q n
        (insert_or_ignore Key.observation true
          (record { artifact_id = artifact_id; observation = observation }) c.source_observations)
        (λ rows. record c { source_observations = rows }) c' h (λ rows. p)

  evidence_keeps :
      (n : ℕ) (evidence : Option EvidenceSnapshot) (c c' : Catalog)
      → put_evidence evidence c ≡ ok c'
      → Holds Q n c
      → Holds Q n c'
  unfolding put_evidence
  evidence_keeps n none c c' h p = subst (Holds Q n) (ok_injective h) p
  evidence_keeps n (some evidence) c c' h p =
      row_keeps Q n
        (insert_or_ignore Key.evidence
          (any (λ row. row.observation.observation_id =ₜ evidence.observation_id)
            c.source_observations)
          evidence c.evidence_snapshots)
        (λ rows. record c { evidence_snapshots = rows }) c' h (λ rows. p)

module _ (Q : ℕ → List Tombstone → List MemoryRecord → List ArtifactRow → List SearchRow → Type 0)
    (keeps : Keeps Q) where
  abbrev HoldsPair : ℕ × Catalog → Type 0
  HoldsPair s = Holds Q s.0 s.1

  taken_keeps :
      (artifact : ArtifactRecord) (s s' : ℕ × Catalog)
      → is_policy_tombstoned s.1.policy_tombstones artifact.host_id artifact.provider_id
          artifact.native_id artifact.observation.source_hash
        ≡ false
      → take_artifact artifact s ≡ ok s'
      → HoldsPair s
      → HoldsPair s'
  unfolding take_artifact
  taken_keeps artifact (n, c) s' allowed h p =
      let ((artifact_id, n', rows), h₁, k₁) =
        bind_ok (put_artifact artifact n c.artifacts) _ s' h in
      let (c₁, h₂, k₂) = bind_ok _ _ s' k₁ in
      let (c₂, h₃, k₃) = bind_ok _ _ s' k₂ in
      let entered : ℕ
          → List Tombstone
          → List MemoryRecord
          → List ArtifactRow
          → List SearchRow
          → Type 0 =
        λ m tombstones memories artifacts search.
          Q m tombstones memories artifacts (put_search artifact_id artifact search) in
      let p₁ =
        keeps.artifact n c.policy_tombstones c.memory_records c.artifacts c.search_content artifact
          artifact_id n' rows allowed h₁ p in
      let p₂ = observation_keeps entered n' artifact_id artifact.observation _ c₁ h₂ p₁ in
      let p₃ = evidence_keeps entered n' artifact.evidence c₁ c₂ h₃ p₂ in
      subst HoldsPair (ok_injective k₃) p₃

  artifact_keeps :
      (artifact : ArtifactRecord) (s s' : ℕ × Catalog)
      → ingest_artifact artifact s ≡ ok s'
      → HoldsPair s
      → HoldsPair s'
  unfolding ingest_artifact
  artifact_keeps artifact s s' h p =
      elim (Bool-cases (
        is_policy_tombstoned s.1.policy_tombstones artifact.host_id artifact.provider_id
          artifact.native_id artifact.observation.source_hash)) [
            | inl forgotten ↦
                let same : ingest_artifact artifact s ≡ ok s =
                  if_true (ok s) (take_artifact artifact s) forgotten in
                subst HoldsPair (ok_injective (sym same ∙ h)) p
            | inr allowed ↦
                let taken : ingest_artifact artifact s ≡ take_artifact artifact s =
                  if_false (ok s) (take_artifact artifact s) allowed in
                taken_keeps artifact s s' allowed (sym taken ∙ h) p
          ]

  cursor_keeps :
      (n : ℕ) (batch : CollectionBatch) (now : ℕ) (descriptor : ProviderDescriptor) (c c' : Catalog)
      → Put.cursor batch now descriptor c ≡ ok c'
      → Holds Q n c
      → Holds Q n c'
  unfolding Put.cursor
  cursor_keeps n batch now descriptor c c' h p = subst (Holds Q n) (ok_injective h) p

  note_run_keeps :
      (n : ℕ) (batch : CollectionBatch) (index_run_id : String) (started_at now : ℕ)
      (c c' : Catalog)
      → note_run batch index_run_id started_at now c ≡ ok c'
      → Holds Q n c
      → Holds Q n c'
  unfolding note_run
  note_run_keeps n batch index_run_id started_at now c c' h p =
      row_keeps Q n (add_run batch.artifacts index_run_id started_at now c.index_runs)
        (λ runs. record c { index_runs = runs }) c' h (λ runs. p)

  pub transaction_keeps :
      (batch : CollectionBatch) (index_run_id : String) (started_at now : ℕ) (c : Catalog)
      (s' : ℕ × Catalog)
      → transaction batch index_run_id started_at now c ≡ ok s'
      → Holds Q 0 c
      → HoldsPair s'
  unfolding transaction
  transaction_keeps batch index_run_id started_at now c s' h p =
      let (c₁, h₁, k₁) = bind_ok _ _ s' h in
      let (s₂, h₂, k₂) = bind_ok _ _ s' k₁ in
      let (c₃, h₃, k₃) = bind_ok _ _ s' k₂ in
      let (c₄, h₄, k₄) = bind_ok _ _ s' k₃ in
      let p₁ = records_keep Q keeps 0 batch now c c₁ h₁ p in
      let p₂ = each_keeps HoldsPair _ artifact_keeps batch.artifacts (0, c₁) s₂ h₂ p₁ in
      let p₃ =
        each_keeps (Holds Q s₂.0) _ (cursor_keeps s₂.0 batch now) batch.providers s₂.1 c₃ h₃ p₂ in
      let p₄ = note_run_keeps s₂.0 batch index_run_id started_at now c₃ c₄ h₄ p₃ in
      subst HoldsPair (ok_injective k₄) p₄

  -- A collection that is rolled back counts nothing.
  pub ingest_keeps :
      (fault restrict : Option Error) (index_run_id : String) (started_at now : ℕ)
      (batch : CollectionBatch) (c : Catalog)
      → Holds Q 0 c
      → (n : ℕ) × Holds Q n (ingest fault restrict index_run_id started_at now batch c).1
        × ((m : ℕ) → (ingest fault restrict index_run_id started_at now batch c).0 ≡ ok m → n ≡ m)
  unfolding ingest
  ingest_keeps (some e) restrict index_run_id started_at now batch c p =
      (0, p, λ m h. absurd (ok_not_err (sym h)))
  ingest_keeps none restrict index_run_id started_at now batch c p =
      elim (Result-cases (transaction batch index_run_id started_at now c)) [
        | inl (e, failed) ↦ rw (failed, ingest) (0, p, λ m h. absurd (ok_not_err (sym h)))
        | inr (s, done) ↦
            rw (done, ingest)
              (
                s.0,
                transaction_keeps batch index_run_id started_at now c s done p,
                λ m h. done_unless_ok restrict s.0 m h,
              )
      ]
