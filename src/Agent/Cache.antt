-- ===== src/Agent/Cache.antt =====
-- The collection caches and collection outboxes of crates/amcp-agent/src/main.rs, one of each for a
-- provider, and the search of the caches. Texts are searched by their code points.
pub mod Search
use Prim.Native.String
use mathlib.Core.List.{reverse}
use agent_memory_control_pla.Prelude.{
  ℕ, suc, ◌+◌, String, Bool, true, false, not, ◌&&◌, ◌||◌, Option, none, some, List, [], ◌∷◌, ◌++◌,
  map, ltb, leb, ◌=ₜ◌, is_some_text, if◌then◌else◌, length, keep, all, take,
}
use agent_memory_control_pla.Prelude.Int.{ℤ, pos, suc_ℤ, max_ℤ}
use agent_memory_control_pla.Prelude.Keyed.{keep_last}
use agent_memory_control_pla.Prelude.Result.{Result, ok, err, ◌>>=◌}
use agent_memory_control_pla.Prelude.Texts.{
  codes, byte_len, len_utf8, as_bytes, words_from, ascii_lower, has_part,
}
use Prim.Native.Char.{code}
use agent_memory_control_pla.Domain.Foreign.{Foreign}
use agent_memory_control_pla.Domain.Kinds.{Scope, HostIdentity, ProviderHealth}
use agent_memory_control_pla.Domain.Records.{
  ArtifactRecord, CollectionBatch, LocalSearchHit, ProviderDescriptor, RuntimeEvent,
}
use agent_memory_control_pla.Agent.Store.{Error, Stored, load_list, load_option, replace}
use agent_memory_control_pla.Agent.Events.{clamp}

-- One file for each provider.
abbrev pub Files : Type 0 → Type 0
Files A = String → Stored A

abbrev pub update : {A : Type 0} → String → Stored A → Files A → Files A
update provider_id file files = λ id. if id =ₜ provider_id then file else files id

unfoldable pub save_collection_cache :
    Option Error
    → String
    → CollectionBatch
    → Files CollectionBatch
    → Result Error (Unit {0}) × Files CollectionBatch
save_collection_cache fault provider_id batch files =
    let (result, file) = replace fault batch (files provider_id) in
    (result, update provider_id file files)

abbrev pub max_batches : ℕ
max_batches = 8

-- The outbox without earlier batches of the same run, and with this one at the end.
unfoldable pub push_batch : CollectionBatch → List CollectionBatch → List CollectionBatch
push_batch batch batches = keep_last max_batches (
    keep (λ queued. not (queued.collection_run_id =ₜ batch.collection_run_id)) batches
    ++ batch ∷ [])

unfoldable pub append_collection_outbox :
    Option Error
    → String
    → CollectionBatch
    → Files (List CollectionBatch)
    → Result Error (Unit {0}) × Files (List CollectionBatch)
append_collection_outbox fault provider_id batch files = elim (load_list (files provider_id)) [
  | err e ↦ (err e, files)
  | ok batches ↦
      let (result, file) = replace fault (push_batch batch batches) (files provider_id) in
      (result, update provider_id file files)
]

-- The first provider with the id gets the health.
unfoldable pub set_health :
    String → ProviderHealth → List ProviderDescriptor → List ProviderDescriptor
set_health provider_id value [] = []
set_health provider_id value (provider ∷ providers) =
    if provider.id =ₜ provider_id
    then record provider { health = value } ∷ providers
    else provider ∷ set_health provider_id value providers

unfoldable pub mark_provider_health : CollectionBatch → String → ProviderHealth → CollectionBatch
mark_provider_health batch provider_id health = record batch {
  providers = set_health provider_id health batch.providers;
}

-- `stable_runtime_event_id` of crates/amcp-domain/src/lib.rs.
unfoldable pub stable_runtime_event_id :
    Foreign → String → String → String → String → String → String
stable_runtime_event_id foreign host_id provider_id event_type native_id payload_json =
    String.◌++◌ "event_" (
      foreign.sha256_hex (
        as_bytes (
          String.◌++◌ host_id (
            String.◌++◌ "\n" (
              String.◌++◌ provider_id (
                String.◌++◌ "\n" (
                  String.◌++◌ event_type (
                    String.◌++◌ "\n" (String.◌++◌ native_id (String.◌++◌ "\n" payload_json))))))))))

unfoldable pub max_sequence : List RuntimeEvent → Option ℤ
max_sequence [] = none
max_sequence (event ∷ events) =
    some (elim (max_sequence events) [ none ↦ event.sequence | some z ↦ max_ℤ event.sequence z ])

-- The payload's text, which serde_json makes of the provider's id, is an argument, and so is the time.
unfoldable pub provider_collection_failure_diagnostic :
    Foreign → (String → String) → ℕ → HostIdentity → String → List RuntimeEvent → RuntimeEvent
unfolding max_sequence
provider_collection_failure_diagnostic foreign failure_payload now host provider_id existing =
    record {
      event_id =
          stable_runtime_event_id foreign host.host_id provider_id "diagnostic.updated"
            "cached-collection" (failure_payload provider_id);
      host_id = host.host_id;
      provider_id = provider_id;
      event_type = "diagnostic.updated";
      sequence = suc_ℤ (elim (max_sequence existing) [ none ↦ pos 0 | some z ↦ z ]);
      payload_json = failure_payload provider_id;
      occurred_at = now;
    }

-- The characters of a text that begin before the bound, where the text begins at the first argument.
unfoldable pub prefix_below : ℕ → ℕ → String → String
prefix_below bound index String.[] = String.[]
prefix_below bound index (String.◌∷◌ c s) =
    let rest = prefix_below bound (index + len_utf8 (code c)) s in
    if ltb index bound then String.◌∷◌ c rest else String.[]

abbrev pub max_preview_bytes : ℕ
max_preview_bytes = 1200

unfoldable pub bounded_local_preview : String → String
bounded_local_preview content =
    if leb (byte_len content) max_preview_bytes
    then content
    else String.◌++◌ (prefix_below max_preview_bytes 0 content) "…"

abbrev pub matches_project : Option Scope → ArtifactRecord → Bool
matches_project none artifact = true
matches_project (some scope) artifact = elim scope.project_id [
  | none ↦ true
  | some project ↦ is_some_text artifact.project_id project
]

abbrev pub terms_of : String → List (List ℕ)
terms_of query = map (map ascii_lower) (words_from (codes query) [])

abbrev pub searchable : ArtifactRecord → List ℕ
searchable artifact = map ascii_lower (
    codes artifact.title
    ++ (10 ∷ (codes artifact.source_reference ++ (10 ∷ codes artifact.content))))

-- The artifact passes all tests of the loop.
unfoldable pub is_hit : String → List (List ℕ) → Option Scope → ArtifactRecord → Bool
is_hit provider_id terms scope artifact =
    not (not (artifact.provider_id =ₜ provider_id) || not (matches_project scope artifact))
    && all (λ term. has_part term (searchable artifact)) terms

unfoldable pub hit_of : ArtifactRecord → LocalSearchHit
hit_of artifact = record {
  artifact_id = artifact.artifact_id;
  host_id = artifact.host_id;
  provider_id = artifact.provider_id;
  project_id = artifact.project_id;
  title = artifact.title;
  source_reference = artifact.source_reference;
  preview = bounded_local_preview artifact.content;
  sensitivity = artifact.sensitivity;
  lifecycle = artifact.lifecycle;
  observed_at = artifact.observation.observed_at;
}

-- The loop over the artifacts of one batch: the results, and whether the limit was reached.
unfoldable pub scan_artifacts :
    ℕ
    → (ArtifactRecord → Bool)
    → List ArtifactRecord
    → List LocalSearchHit
    → List LocalSearchHit × Bool
scan_artifacts most test [] results = (results, false)
scan_artifacts most test (artifact ∷ artifacts) results =
    let more = results ++ hit_of artifact ∷ [] in
    let skipped = scan_artifacts most test artifacts results in
    let added = scan_artifacts most test artifacts more in
    if test artifact then (if leb most (length more) then (more, true) else added) else skipped

-- The loop over the providers. `cache_available` is its last argument.
unfoldable pub scan_providers :
    Files CollectionBatch
    → List (List ℕ)
    → Option Scope
    → ℕ
    → List String
    → List LocalSearchHit
    → Bool
    → Result Error (List LocalSearchHit × Bool)
scan_providers caches terms scope most [] results available = ok (results, available)
scan_providers caches terms scope most (provider_id ∷ provider_ids) results available =
    elim (load_option (caches provider_id)) [
      | err e ↦ err e
      | ok none ↦ scan_providers caches terms scope most provider_ids results available
      | ok (some batch) ↦
          let scanned =
            scan_artifacts most (is_hit provider_id terms scope) batch.artifacts results in
          let rest = scan_providers caches terms scope most provider_ids scanned.0 true in
          if scanned.1 then ok (scanned.0, true) else rest
    ]

unfoldable pub search_collection_cache :
    Files CollectionBatch
    → List String
    → String
    → Option Scope
    → ℕ
    → Result Error (List LocalSearchHit × Bool)
search_collection_cache caches provider_ids query scope limit =
    scan_providers caches (terms_of query) scope (clamp 1 50 limit) provider_ids [] false
