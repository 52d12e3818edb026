-- ===== src/Agent/Requests/Collect.antt =====
-- The requests `Collect` and `SearchLocal` of crates/amcp-agent/src/main.rs. A query is trimmed by
-- its words: the search reads nothing else of it.
use agent_memory_control_pla.Prelude.{
  ℕ, String, Bool, true, false, not, ◌||◌, Option, none, some, List, [], ◌∷◌, ◌++◌, map, ltb,
  is_some_text, if◌then◌else◌,
}
use agent_memory_control_pla.Prelude.Result.{Result, ok, err}
use agent_memory_control_pla.Prelude.Texts.{is_blank, byte_len}
use agent_memory_control_pla.Domain.Kinds.{Scope, ProviderHealth}
use agent_memory_control_pla.Domain.Records.{CollectionBatch}
use agent_memory_control_pla.Protocol.{ResponsePayload}
use agent_memory_control_pla.Providers
use agent_memory_control_pla.Providers.{ProviderAdapter, descriptors}
use agent_memory_control_pla.Agent.Store.{Error, load_option}
use agent_memory_control_pla.Agent.Cache.{
  Files, save_collection_cache, append_collection_outbox, mark_provider_health,
  provider_collection_failure_diagnostic, search_collection_cache,
}
use agent_memory_control_pla.Agent.Events.{append_runtime_event_outbox}
use agent_memory_control_pla.Agent.Stream.{names_other_host}
use agent_memory_control_pla.Agent.Requests.Context.{Env, Agent, Reply, deny}

abbrev pub provider_of : Option Scope → String
provider_of none = "codex"
provider_of (some scope) = elim scope.provider_id [ none ↦ "codex" | some id ↦ id ]

-- A given scope must name this host.
abbrev pub names_this_host : Option Scope → String → Bool
names_this_host none own = true
names_this_host (some scope) own = is_some_text scope.host_id own

module _ {W : Type 0} (env : Env W) where
  -- A discovery that succeeded: the cache and the outbox are written if that is possible, and the
  -- events must be.
  unfoldable pub collected : String → Option String → CollectionBatch → Agent W → Reply × Agent W
  collected provider_id cursor found s =
      let batch = record found { next_cursor = cursor } in
      let (cached, caches) = save_collection_cache env.cache_fault provider_id batch s.caches in
      let (queued, outboxes) =
        append_collection_outbox env.outbox_fault provider_id batch s.outboxes in
      let (appended, events) =
        append_runtime_event_outbox env.event_fault batch.runtime_events s.events in
      (
        elim appended [
          | ok _ ↦ ok (ResponsePayload.collection batch)
          | err e ↦ deny "event_outbox_failed" e
        ],
        record s { caches = caches; outboxes = outboxes; events = events },
      )

  -- A discovery that failed is answered from the cache, with a diagnostic event.
  unfoldable pub fallback :
      String → Error → Result Error (Option CollectionBatch) → Agent W → Reply × Agent W
  fallback provider_id e (ok (some found)) s =
      let batch = mark_provider_health found provider_id ProviderHealth.degraded in
      let diagnostic =
        provider_collection_failure_diagnostic env.foreign env.failure_payload env.now batch.host
          provider_id batch.runtime_events in
      let (appended, events) =
        append_runtime_event_outbox env.event_fault (diagnostic ∷ []) s.events in
      (
        ok (
            ResponsePayload.collection
              (record batch { runtime_events = batch.runtime_events ++ diagnostic ∷ [] })),
        record s { events = events },
      )
  fallback provider_id e (ok none) s = (deny "collection_failed" e, s)
  fallback provider_id e (err x) s = (deny "collection_failed" e, s)

  unfoldable pub discover_now :
      ProviderAdapter W → String → Option String → Agent W → Reply × Agent W
  unfolding collected fallback
  discover_now provider provider_id cursor s = elim (provider.discover env.host s.world) [
    | ok batch ↦ collected provider_id cursor batch s
    | err e ↦ fallback provider_id e (load_option (s.caches provider_id)) s
  ]

  -- With an unchanged cursor the cache answers, if it can be read.
  unfoldable pub from_cache_or :
      ProviderAdapter W
      → String
      → Option String
      → Result Error (Option CollectionBatch)
      → Agent W
      → Reply × Agent W
  unfolding discover_now
  from_cache_or provider provider_id cursor (ok (some batch)) s =
      (ok (ResponsePayload.collection (record batch { next_cursor = cursor })), s)
  from_cache_or provider provider_id cursor (ok none) s = discover_now provider provider_id cursor s
  from_cache_or provider provider_id cursor (err e) s = discover_now provider provider_id cursor s

  abbrev pub is_current : Option String → Option String → Bool
  is_current none cursor = false
  is_current (some current) cursor = is_some_text cursor current

  unfoldable pub on_collect : Option Scope → Option String → Agent W → Reply × Agent W
  unfolding from_cache_or
  on_collect scope cursor s =
      if not (names_this_host scope env.host.host_id)
      then (deny "scope_denied" "requested host is not this Agent", s)
      else elim (Providers.get env.registry (provider_of scope)) [
        | err e ↦ (deny "provider_unavailable" e, s)
        | ok provider ↦
            let current = provider.collection_cursor s.world in
            if is_current current cursor
            then from_cache_or provider (provider_of scope) current
                (load_option (s.caches (provider_of scope))) s
            else discover_now provider (provider_of scope) current s
      ]

  abbrev pub searched_providers : Option Scope → List String
  searched_providers none = map (λ d. d.id) (descriptors env.registry)
  searched_providers (some scope) = elim scope.provider_id [
    | none ↦ map (λ d. d.id) (descriptors env.registry)
    | some id ↦ id ∷ []
  ]

  unfoldable pub on_search_local : String → Option Scope → ℕ → Files CollectionBatch → Reply
  on_search_local query scope limit caches =
      if names_other_host scope env.host.host_id
      then deny "scope_denied" "requested host is not this Agent"
      else if is_blank query || ltb 512 (byte_len query)
      then deny "invalid_query" "local search query must contain at most 512 characters"
      else elim (search_collection_cache caches (searched_providers scope) query scope limit) [
        | ok (results, available) ↦ ok (ResponsePayload.local_search results available)
        | err e ↦ deny "local_search_failed" e
      ]
