-- ===== src/Storage/Ingest/Keeps.antt =====
-- What `ingest` of crates/amcp-storage/src/lib.rs keeps, for properties of the memory records, the
-- artifacts and their search entries: it is enough that each record taken in keeps them.
use mathlib.Core.Path.{subst}
use agent_memory_control_pla.Prelude.{
  ℕ, String, ◌≡◌, refl, sym, ◌∙◌, inl, inr, false, List, [], ◌∷◌, Bool-cases,
}
use agent_memory_control_pla.Prelude.Result.{Result, ok, ◌>>=◌, ok_injective, bind_ok}
use agent_memory_control_pla.Domain.Records.{
  ArtifactRecord, ProjectRecord, SessionRecord, SessionItem, MemoryRecord, ConfigLayerRecord,
  GuidanceRecord, GuidanceEdge, RuntimeEvent, ProviderDescriptor, CollectionBatch,
}
use agent_memory_control_pla.Agent.Store.{Error}
use agent_memory_control_pla.Storage.Catalog.{
  Catalog, ArtifactRow, SearchRow, Tombstone, upsert, upsert_child, insert_or_ignore, has_host,
  is_policy_tombstoned,
}
use agent_memory_control_pla.Storage.Key
use agent_memory_control_pla.Storage.Put
use agent_memory_control_pla.Storage.Ingest.{each, put_artifact, put_search, ingest_records}

pub each_keeps :
    {A S : Type 0} (P : S → Type 0) (f : A → S → Result Error S)
    → ((x : A) (s s' : S) → f x s ≡ ok s' → P s → P s')
    → (xs : List A) (s s' : S) → each f xs s ≡ ok s'
    → P s
    → P s'
each_keeps P f step [] s s' h p = subst P (ok_injective h) p
each_keeps P f step (x ∷ xs) s s' h p =
    let (next, done, rest) = bind_ok (f x s) (each f xs) s' h in
    each_keeps P f step xs next s' rest (step x s next done p)

module _
    (Q : ℕ → List Tombstone → List MemoryRecord → List ArtifactRow → List SearchRow → Type 0) where
  abbrev pub Holds : ℕ → Catalog → Type 0
  Holds n c = Q n c.policy_tombstones c.memory_records c.artifacts c.search_content

  pub row_keeps :
      {A : Type 0} (n : ℕ) (r : Result Error A) (put : A → Catalog) (c' : Catalog)
      → (r >>= (λ rows. ok (put rows))) ≡ ok c'
      → ((rows : A) → Holds n (put rows))
      → Holds n c'
  row_keeps n r put c' h p =
      let (rows, _, done) = bind_ok r (λ rows. ok (put rows)) c' h in
      subst (Holds n) (ok_injective done) (p rows)

  -- A memory record and an artifact that no tombstone covers keep the property.
  pub record Keeps : Type 0 where
    pub memory :
        (n : ℕ) (tombstones : List Tombstone) (memories : List MemoryRecord)
        (artifacts : List ArtifactRow) (search : List SearchRow) (row : MemoryRecord)
        → is_policy_tombstoned tombstones row.host_id row.provider_id row.source_reference
            row.source_hash
          ≡ false
        → Q n tombstones memories artifacts search
        → Q n tombstones (upsert Key.memory row memories) artifacts search
    pub artifact :
        (n : ℕ) (tombstones : List Tombstone) (memories : List MemoryRecord)
        (artifacts : List ArtifactRow) (search : List SearchRow) (a : ArtifactRecord)
        (artifact_id : String) (n' : ℕ) (artifacts' : List ArtifactRow)
        → is_policy_tombstoned tombstones a.host_id a.provider_id a.native_id
            a.observation.source_hash
          ≡ false
        → put_artifact a n artifacts ≡ ok (artifact_id, n', artifacts')
        → Q n tombstones memories artifacts search
        → Q n' tombstones memories artifacts' (put_search artifact_id a search)

  module _ (keeps : Keeps) where
    provider_keeps :
        (n : ℕ) (host_id : String) (row : ProviderDescriptor) (c c' : Catalog)
        → Put.provider host_id row c ≡ ok c'
        → Holds n c
        → Holds n c'
    unfolding Put.provider
    provider_keeps n host_id row c c' h p =
        row_keeps n
          (upsert_child Key.provider (has_host c host_id)
            (record { host_id = host_id; provider = row }) c.providers)
          (λ rows. record c { providers = rows }) c' h (λ rows. p)

    project_keeps :
        (n : ℕ) (row : ProjectRecord) (c c' : Catalog)
        → Put.project row c ≡ ok c'
        → Holds n c
        → Holds n c'
    unfolding Put.project
    project_keeps n row c c' h p =
        row_keeps n (upsert_child Key.project (has_host c row.host_id) row c.projects)
          (λ rows. record c { projects = rows }) c' h (λ rows. p)

    session_keeps :
        (n : ℕ) (row : SessionRecord) (c c' : Catalog)
        → Put.session row c ≡ ok c'
        → Holds n c
        → Holds n c'
    unfolding Put.session
    session_keeps n row c c' h p =
        row_keeps n (upsert_child Key.session (has_host c row.host_id) row c.sessions)
          (λ rows. record c { sessions = rows }) c' h (λ rows. p)

    layer_keeps :
        (n : ℕ) (row : ConfigLayerRecord) (c c' : Catalog)
        → Put.layer row c ≡ ok c'
        → Holds n c
        → Holds n c'
    unfolding Put.layer
    layer_keeps n row c c' h p =
        row_keeps n (upsert_child Key.layer (has_host c row.host_id) row c.config_layers)
          (λ rows. record c { config_layers = rows }) c' h (λ rows. p)

    guidance_keeps :
        (n : ℕ) (row : GuidanceRecord) (c c' : Catalog)
        → Put.guidance row c ≡ ok c'
        → Holds n c
        → Holds n c'
    unfolding Put.guidance
    guidance_keeps n row c c' h p =
        row_keeps n (upsert_child Key.guidance (has_host c row.host_id) row c.guidance_records)
          (λ rows. record c { guidance_records = rows }) c' h (λ rows. p)

    event_keeps :
        (n : ℕ) (row : RuntimeEvent) (c c' : Catalog)
        → Put.event row c ≡ ok c'
        → Holds n c
        → Holds n c'
    unfolding Put.event
    event_keeps n row c c' h p =
        row_keeps n (insert_or_ignore Key.event (has_host c row.host_id) row c.runtime_events)
          (λ rows. record c { runtime_events = rows }) c' h (λ rows. p)

    session_item_keeps :
        (n : ℕ) (row : SessionItem) (c c' : Catalog)
        → Put.session_item row c ≡ ok c'
        → Holds n c
        → Holds n c'
    unfolding Put.session_item
    session_item_keeps n row c c' h p = subst (Holds n) (ok_injective h) p

    edge_keeps :
        (n : ℕ) (row : GuidanceEdge) (c c' : Catalog)
        → Put.edge row c ≡ ok c'
        → Holds n c
        → Holds n c'
    unfolding Put.edge
    edge_keeps n row c c' h p = subst (Holds n) (ok_injective h) p

    memory_keeps :
        (n : ℕ) (row : MemoryRecord) (c c' : Catalog)
        → Put.memory row c ≡ ok c'
        → Holds n c
        → Holds n c'
    unfolding Put.memory
    memory_keeps n row c c' h p =
        let put = record c { memory_records = upsert Key.memory row c.memory_records } in
        elim (Bool-cases (
          is_policy_tombstoned c.policy_tombstones row.host_id row.provider_id row.source_reference
            row.source_hash)) [
              | inl forgotten ↦
                  let same : Put.memory row c ≡ ok c = rw (forgotten, Put.memory) refl in
                  subst (Holds n) (ok_injective (sym same ∙ h)) p
              | inr allowed ↦
                  let taken : Put.memory row c ≡ ok put = rw (allowed, Put.memory) refl in
                  subst (Holds n) (ok_injective (sym taken ∙ h))
                    (keeps.memory n _ _ _ _ row allowed p)
            ]

    pub records_keep :
        (n : ℕ) (batch : CollectionBatch) (now : ℕ) (c c' : Catalog)
        → ingest_records batch now c ≡ ok c'
        → Holds n c
        → Holds n c'
    unfolding ingest_records Put.host
    records_keep n batch now c c' h p =
        let (c₁, h₁, k₁) = bind_ok _ _ c' h in
        let (c₂, h₂, k₂) = bind_ok _ _ c' k₁ in
        let (c₃, h₃, k₃) = bind_ok _ _ c' k₂ in
        let (c₄, h₄, k₄) = bind_ok _ _ c' k₃ in
        let (c₅, h₅, k₅) = bind_ok _ _ c' k₄ in
        let (c₆, h₆, k₆) = bind_ok _ _ c' k₅ in
        let (c₇, h₇, k₇) = bind_ok _ _ c' k₆ in
        let (c₈, h₈, k₈) = bind_ok _ _ c' k₇ in
        let p₁ =
          each_keeps (Holds n) _ (provider_keeps n batch.host.host_id) batch.providers _ c₁ h₁ p in
        let p₂ = each_keeps (Holds n) _ (project_keeps n) batch.projects c₁ c₂ h₂ p₁ in
        let p₃ = each_keeps (Holds n) _ (session_keeps n) batch.sessions c₂ c₃ h₃ p₂ in
        let p₄ = each_keeps (Holds n) _ (session_item_keeps n) batch.session_items c₃ c₄ h₄ p₃ in
        let p₅ = each_keeps (Holds n) _ (memory_keeps n) batch.memory_records c₄ c₅ h₅ p₄ in
        let p₆ = each_keeps (Holds n) _ (layer_keeps n) batch.config_layers c₅ c₆ h₆ p₅ in
        let p₇ = each_keeps (Holds n) _ (guidance_keeps n) batch.guidance_records c₆ c₇ h₇ p₆ in
        let p₈ = each_keeps (Holds n) _ (edge_keeps n) batch.guidance_edges c₇ c₈ h₈ p₇ in
        each_keeps (Holds n) _ (event_keeps n) batch.runtime_events c₈ c' k₈ p₈
