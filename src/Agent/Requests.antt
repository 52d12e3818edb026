-- ===== src/Agent/Requests.antt =====
-- `process_request` of crates/amcp-agent/src/main.rs: one request, from the version test to the
-- response. A request reads the clock once. `W` is the world that the adapters act on.
pub mod Context
pub mod Collect
pub mod Change
pub mod Guards
pub mod World
pub mod Applied
pub mod Enrollment
use agent_memory_control_pla.Prelude.{
  ℕ, ◌+◌, ◌*◌, String, Bool, true, false, not, ◌&&◌, ◌||◌, Option, none, some, List, [], ◌∷◌, map,
  ltb, leb, ◌==◌, option_text_eq, if◌then◌else◌, take,
}
use mathlib.Core.List.{reverse, flat_map}
use agent_memory_control_pla.Prelude.Result.{Result, ok, err}
use agent_memory_control_pla.Domain.Approval.{new_id}
use agent_memory_control_pla.Domain.Kinds.{ArtifactRef}
use agent_memory_control_pla.Domain.Records.{ProviderDescriptor}
use agent_memory_control_pla.Protocol
use agent_memory_control_pla.Protocol.{
  RequestMethod, RequestEnvelope, ResponsePayload, ResponseEnvelope, ProtocolError,
  protocol_version,
}
use agent_memory_control_pla.Providers
use agent_memory_control_pla.Providers.{descriptors}
use agent_memory_control_pla.Agent.Store.{Error, Stored, load_list}
use agent_memory_control_pla.Agent.Auth.{AgentAuth, day, accepts}
use agent_memory_control_pla.Agent.Approvals.{Ledger}
use agent_memory_control_pla.Agent.Events.{
  Outbox, clamp, page_of, runtime_event_page, acknowledge_runtime_events,
}
use agent_memory_control_pla.Agent.Stream.{respond}
use agent_memory_control_pla.Agent.Requests.Context.{Env, Agent, Reply, deny}
use agent_memory_control_pla.Agent.Requests.Collect.{on_collect, on_search_local}
use agent_memory_control_pla.Agent.Requests.Change.{on_propose, on_apply, on_rollback}

-- `guard.pairing_code == request.pairing_code`, before it expires.
abbrev pub pairs : AgentAuth → ℕ → Option String → Bool
pairs auth now code = option_text_eq auth.pairing_code code && leb now auth.pairing_expires_at

abbrev pub is_enroll : RequestMethod → Bool
is_enroll (RequestMethod.enroll id) = true
is_enroll _ = false

module _ {W : Type 0} (env : Env W) where
  unfoldable pub authenticated : RequestEnvelope → AgentAuth → Bool
  authenticated request auth =
      if is_enroll request.method
      then pairs auth env.now request.pairing_code
      else accepts auth env.now request.token

  -- The new credential holds from now on, and the pairing code is gone, also if storing it fails.
  unfoldable pub on_enroll : Agent W → Reply × Agent W
  on_enroll s =
      let credential = new_id "agent-credential" env.uuid in
      let expires_at : ℕ = env.now + 365 * day in
      let auth = record s.ledger.auth {
        enrolled_credential = some credential;
        credential_expires_at = some expires_at;
        pairing_code = none;
      } in
      (
        elim env.credential_fault [
          | none ↦ ok (
              ResponsePayload.enrolled env.host.host_id env.host credential
                (env.foreign.to_rfc3339 expires_at))
          | some e ↦ deny "credential_store_failed" e
        ],
        record s { ledger = record s.ledger { auth = auth } },
      )

  unfoldable pub on_capabilities : Reply
  on_capabilities =
      let all = descriptors env.registry in
      ok (
        ResponsePayload.capabilities env.host.platform (map (λ d. d.id) all) all
          (flat_map (λ (d : ProviderDescriptor). d.capabilities) all) env.agent_version)

  unfoldable pub on_replay_collection : String → ℕ → Agent W → Reply
  on_replay_collection provider_id limit s = elim (load_list (s.outboxes provider_id)) [
    | ok batches ↦
        ok (
          ResponsePayload.collection_replay provider_id (take (clamp 1 32 limit) (reverse batches)))
    | err e ↦ deny "replay_failed" e
  ]

  unfoldable pub on_replay_events : Option String → ℕ → Outbox → Reply
  on_replay_events after limit file = elim (load_list file) [
    | ok events ↦ ok (ResponsePayload.runtime_events (page_of after limit events))
    | err e ↦ deny "event_replay_failed" e
  ]

  unfoldable pub on_subscribe : Option String → ℕ → Outbox → Reply
  on_subscribe after limit file = elim (runtime_event_page file after limit) [
    | ok (events, next) ↦ ok (ResponsePayload.runtime_event_page events next false)
    | err e ↦ deny "event_subscribe_failed" e
  ]

  unfoldable pub on_ack : List String → Agent W → Reply × Agent W
  on_ack event_ids s =
      let (result, file) = acknowledge_runtime_events env.event_fault event_ids s.events in
      (
        elim result [
          | ok removed ↦ ok (ResponsePayload.runtime_events_acked removed)
          | err e ↦ deny "event_ack_failed" e
        ],
        record s { events = file },
      )

  unfoldable pub on_read_artifact : ArtifactRef → Agent W → Reply
  on_read_artifact target s = elim (Providers.get env.registry target.provider_id) [
    | err e ↦ deny "read_denied" e
    | ok provider ↦ elim (provider.read_artifact target env.host s.world) [
      | ok artifact ↦ ok (ResponsePayload.artifact artifact)
      | err e ↦ deny "read_denied" e
    ]
  ]

  -- The `match` on the method. The token is the request's.
  unfoldable pub dispatch : Option String → RequestMethod → Agent W → Reply × Agent W
  dispatch token (RequestMethod.register id) s =
      (ok (ResponsePayload.registered env.host.host_id env.host), s)
  dispatch token (RequestMethod.enroll id) s = on_enroll s
  dispatch token RequestMethod.heartbeat s =
      (ok (ResponsePayload.heartbeat true env.host.host_id (env.foreign.to_rfc3339 env.now)), s)
  dispatch token RequestMethod.capabilities s = (on_capabilities, s)
  dispatch token (RequestMethod.collect scope cursor) s = on_collect env scope cursor s
  dispatch token (RequestMethod.search_local query scope limit) s =
      (on_search_local env query scope limit s.caches, s)
  dispatch token (RequestMethod.replay_collection provider_id limit) s =
      (on_replay_collection provider_id limit s, s)
  dispatch token (RequestMethod.replay_events after limit) s =
      (on_replay_events after limit s.events, s)
  dispatch token (RequestMethod.subscribe_events after limit wait_ms) s =
      (on_subscribe after limit s.events, s)
  dispatch token (RequestMethod.ack_events event_ids) s = on_ack event_ids s
  dispatch token (RequestMethod.read_artifact target redacted) s = (on_read_artifact target s, s)
  dispatch token (RequestMethod.propose_change request) s = (on_propose env request s.world, s)
  dispatch token (RequestMethod.apply_change change_set approval) s =
      on_apply env token change_set approval s
  dispatch token (RequestMethod.rollback change_set approval) s =
      on_rollback env token change_set approval s
  dispatch token RequestMethod.shutdown s = (ok ResponsePayload.shutdown_ack, s)
  dispatch token _ s = (
    deny "runtime_request_requires_async_handler"
        "runtime thread requests must use the Agent async handler",
    s,
  )

  unfoldable pub answer_to : RequestEnvelope → Agent W → Reply × Agent W
  answer_to request s =
      if not (request.protocol_version == protocol_version)
      then (deny "protocol_version_mismatch" "unsupported protocol version", s)
      else if not (authenticated request s.ledger.auth)
      then (deny "unauthorized" "invalid Agent token", s)
      else dispatch request.token request.method s

  unfoldable pub process_request : RequestEnvelope → Agent W → ResponseEnvelope × Agent W
  unfolding answer_to
  process_request request s =
      let (reply, s') = answer_to request s in (respond request.request_id reply, s')
