-- ===== src/Agent/Requests/Guards.antt =====
-- What must hold before `process_request` of crates/amcp-agent/src/main.rs changes anything, and
-- before it lets an adapter change the world.
use agent_memory_control_pla.Prelude.{
  String, ◌≡◌, ◌≢◌, refl, ◌⊎◌, inl, inr, Bool, true, false, Option, some, arith, ◌==◌, Bool-cases,
  if◌then◌else◌,
}
use agent_memory_control_pla.Prelude.Result.{Result, ok, err}
use agent_memory_control_pla.Domain.Change.{ChangeSet, ChangeReceipt}
use agent_memory_control_pla.Domain.Kinds.{Scope}
use agent_memory_control_pla.Domain.Approval.{ApprovalEnvelope}
use agent_memory_control_pla.Protocol.{RequestMethod, RequestEnvelope, protocol_version}
use agent_memory_control_pla.Providers.{ProviderAdapter}
use agent_memory_control_pla.Agent.Store.{Error}
use agent_memory_control_pla.Agent.Approvals.{consume_approval}
use agent_memory_control_pla.Agent.Requests.Context.{Env, Agent, deny}
use agent_memory_control_pla.Agent.Requests.Collect.{
  collected, fallback, discover_now, from_cache_or, on_collect,
}
use agent_memory_control_pla.Agent.Requests.Change.{approval_request, guarded}
use agent_memory_control_pla.Agent.Requests.{authenticated, process_request}

module _ {W : Type 0} (env : Env W) where
  -- A request of another protocol version, or that is not authenticated, changes nothing; in the first
  -- case, whether it is authenticated or not, it is answered with the error
  -- `protocol_version_mismatch`, and else with the error `unauthorized`.
  pub process_request_refused :
      (request : RequestEnvelope) (s : Agent W)
      → (request.protocol_version ≢ protocol_version)
        ⊎ (authenticated env request s.ledger.auth ≡ false)
      → ((process_request env request s).1 ≡ s)
        × ((process_request env request s).0.result ≡ (
            if request.protocol_version == protocol_version
            then deny "unauthorized" "invalid Agent token"
            else deny "protocol_version_mismatch" "unsupported protocol version"))
  unfolding process_request
  process_request_refused request s (inl other) =
      elim (Bool-cases (request.protocol_version == protocol_version)) [
        | inl same ↦ absurd (other (ground arith))
        | inr differs ↦ rw differs (refl, refl)
      ]
  process_request_refused request s (inr bad) =
      elim (Bool-cases (request.protocol_version == protocol_version)) [
        | inl same ↦ rw (same, bad) (refl, refl)
        | inr differs ↦ rw differs (refl, refl)
      ]

  -- What a request that changes the world has shown: it is an apply or a rollback for this host, and
  -- its approval was accepted, for this change set and under the request's token.
  pub record Approves (token : Option String) (method : RequestMethod) (s : Agent W) : Type 0 where
    pub change_set : ChangeSet
    pub approval : ApprovalEnvelope
    pub called :
        (method ≡ RequestMethod.apply_change change_set approval)
        ⊎ (method ≡ RequestMethod.rollback change_set approval)
    pub here : change_set.scope.host_id ≡ some env.host.host_id
    pub accepted :
        (consume_approval env.foreign (approval_request env token change_set approval) s.ledger).0
        ≡ ok true

  pub world-on_collect :
      (scope : Option Scope) (cursor : Option String) (s : Agent W)
      → (on_collect env scope cursor s).1.world ≡ s.world
  unfolding on_collect from_cache_or discover_now collected fallback
  world-on_collect scope cursor s = ground arith

  -- A guarded call with no accepted approval does not reach the adapter.
  pub world-guarded :
      (failed invalid message : String)
      (call : ProviderAdapter W → ChangeSet → String → W → Result Error ChangeReceipt × W)
      (cs : ChangeSet) (approval : ApprovalEnvelope) (consumed : Result Error Bool) (s : Agent W)
      → ((guarded env failed invalid message call cs approval consumed s).1.world ≡ s.world)
        ⊎ (consumed ≡ ok true)
  unfolding guarded
  world-guarded failed invalid message call cs approval (err e) s = inl refl
  world-guarded failed invalid message call cs approval (ok true) s = inr refl
  world-guarded failed invalid message call cs approval (ok false) s = inl refl
