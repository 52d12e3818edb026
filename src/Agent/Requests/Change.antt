-- ===== src/Agent/Requests/Change.antt =====
-- The requests `ProposeChange`, `ApplyChange` and `Rollback` of crates/amcp-agent/src/main.rs.
use agent_memory_control_pla.Prelude.{
  String, Bool, not, ◌||◌, Option, none, some, ◌=ₜ◌, is_some_text, if◌then◌else◌,
}
use agent_memory_control_pla.Prelude.Result.{Result, ok, err}
use agent_memory_control_pla.Domain.Change.{ChangeRequest, ChangeSet, ChangeReceipt}
use agent_memory_control_pla.Domain.Approval.{ApprovalEnvelope, change_set_operations_hash}
use agent_memory_control_pla.Protocol.{ResponsePayload}
use agent_memory_control_pla.Providers
use agent_memory_control_pla.Providers.{ProviderAdapter}
use agent_memory_control_pla.Agent.Store.{Error}
use agent_memory_control_pla.Agent.Approvals.{Request, consume_approval}
use agent_memory_control_pla.Agent.Requests.Context.{Env, Agent, Reply, deny}

-- `unwrap_or_default`
abbrev pub text_or_empty : Option String → String
text_or_empty none = ""
text_or_empty (some text) = text

module _ {W : Type 0} (env : Env W) where
  unfoldable pub on_propose : ChangeRequest → W → Reply
  on_propose request world =
      if not (request.target.host_id =ₜ env.host.host_id)
      then deny "scope_denied" "requested change is not for this Agent host"
      else elim (Providers.get env.registry request.target.provider_id) [
        | err e ↦ deny "proposal_denied" e
        | ok provider ↦ elim (provider.propose_change request world) [
          | ok change_set ↦ ok (ResponsePayload.change_set change_set)
          | err e ↦ deny "proposal_denied" e
        ]
      ]

  -- What the handlers ask `consume_approval`: the secret is the token of the request.
  abbrev pub approval_request : Option String → ChangeSet → ApprovalEnvelope → Request
  approval_request token change_set approval = record {
    fault = env.approval_fault;
    now = env.now;
    approval = approval;
    secret = text_or_empty token;
    expected_change_set_id = change_set.change_set_id;
    operations_hash = change_set_operations_hash env.foreign change_set;
  }

  -- The approval guards a call of an adapter, which changes the world.
  unfoldable pub guarded :
      String
      → String
      → String
      → (ProviderAdapter W → ChangeSet → String → W → Result Error ChangeReceipt × W)
      → ChangeSet
      → ApprovalEnvelope
      → Result Error Bool
      → Agent W
      → Reply × Agent W
  guarded failed invalid message call change_set approval (err e) s =
      (deny "approval_replay_store_failed" e, s)
  guarded failed invalid message call change_set approval (ok valid) s =
      if not valid
        || not (approval.change_set_id =ₜ change_set.change_set_id)
        || not (approval.operations_hash =ₜ change_set_operations_hash env.foreign change_set)
      then (deny invalid message, s)
      else elim (Providers.get env.registry change_set.provider_id) [
        | err e ↦ (deny failed e, s)
        | ok provider ↦
            let (result, world) = call provider change_set env.backup_dir s.world in
            (
              elim result [
                | ok receipt ↦ ok (ResponsePayload.change_receipt receipt)
                | err e ↦ deny failed e
              ],
              record s { world = world },
            )
      ]

  unfoldable pub on_apply : Option String → ChangeSet → ApprovalEnvelope → Agent W → Reply × Agent W
  unfolding guarded
  on_apply token change_set approval s =
      if not (is_some_text change_set.scope.host_id env.host.host_id)
      then (deny "scope_denied" "requested change is not for this Agent host", s)
      else let (consumed, ledger) =
          consume_approval env.foreign (approval_request token change_set approval) s.ledger in
        guarded "apply_failed" "approval_invalid"
          "approval envelope is invalid, expired, or not bound to change set"
          (λ provider. provider.apply_change) change_set approval consumed
          (record s { ledger = ledger })

  unfoldable pub on_rollback :
      Option String → ChangeSet → ApprovalEnvelope → Agent W → Reply × Agent W
  unfolding guarded
  on_rollback token change_set approval s =
      if not (is_some_text change_set.scope.host_id env.host.host_id)
      then (deny "scope_denied" "requested rollback is not for this Agent host", s)
      else let (consumed, ledger) =
          consume_approval env.foreign (approval_request token change_set approval) s.ledger in
        guarded "rollback_failed" "approval_invalid"
          "rollback approval envelope is invalid or not bound to change set"
          (λ provider. provider.rollback_change) change_set approval consumed
          (record s { ledger = ledger })
