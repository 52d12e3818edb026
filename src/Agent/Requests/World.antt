-- ===== src/Agent/Requests/World.antt =====
-- Which calls of an adapter change the world when `process_request` of
-- crates/amcp-agent/src/main.rs answers a request.
use agent_memory_control_pla.Prelude.{
  String, ◌≡◌, refl, ◌⊎◌, inl, inr, Bool, true, not, ◌||◌, Option, arith, ◌==◌, ◌=ₜ◌, is_some_text,
  Bool-cases, is_some_text→eq,
}
use agent_memory_control_pla.Prelude.Result.{Result, ok, err}
use agent_memory_control_pla.Domain.Change.{ChangeSet, ChangeReceipt}
use agent_memory_control_pla.Domain.Approval.{ApprovalEnvelope, change_set_operations_hash}
use agent_memory_control_pla.Protocol.{RequestMethod, RequestEnvelope, protocol_version}
use agent_memory_control_pla.Providers
use agent_memory_control_pla.Providers.{ProviderAdapter}
use agent_memory_control_pla.Agent.Store.{Error}
use agent_memory_control_pla.Agent.Approvals.{consume_approval}
use agent_memory_control_pla.Agent.Requests.Context.{Env, Agent}
use agent_memory_control_pla.Agent.Requests.Change.{
  approval_request, guarded, on_apply, on_rollback,
}
use agent_memory_control_pla.Agent.Requests.{
  authenticated, dispatch, process_request, on_enroll, on_ack,
}
use agent_memory_control_pla.Agent.Requests.Guards.{Approves, world-on_collect, world-guarded}

module _ {W : Type 0} (env : Env W) where
  -- The adapter of the change set made the world out of the one before.
  abbrev pub Made : ChangeSet → W → W → Type 0
  Made cs before world =
      (provider : ProviderAdapter W) × (Providers.get env.registry cs.provider_id ≡ ok provider)
      × ((world ≡ (provider.apply_change cs env.backup_dir before).1)
          ⊎ (world ≡ (provider.rollback_change cs env.backup_dir before).1))

  call-guarded :
      (failed invalid message : String)
      (call : ProviderAdapter W → ChangeSet → String → W → Result Error ChangeReceipt × W)
      (cs : ChangeSet) (approval : ApprovalEnvelope) (consumed : Result Error Bool) (s : Agent W)
      → ((guarded env failed invalid message call cs approval consumed s).1.world ≡ s.world)
        ⊎ ((provider : ProviderAdapter W) × (Providers.get env.registry cs.provider_id
              ≡ ok provider)
            × ((guarded env failed invalid message call cs approval consumed s).1.world
                ≡ (call provider cs env.backup_dir s.world).1))
  unfolding guarded
  call-guarded failed invalid message call cs approval (err e) s = inl refl
  call-guarded failed invalid message call cs approval (ok valid) s =
      elim (Bool-cases (
        not valid
        || not (approval.change_set_id =ₜ cs.change_set_id)
        || not (approval.operations_hash =ₜ change_set_operations_hash env.foreign cs))) [
          | inl bad ↦ inl (rw (bad, guarded) refl)
          | inr good ↦ elim (get_cases (Providers.get env.registry cs.provider_id)) [
            | inl (e, missing) ↦ inl (rw (good, guarded) (rw (missing, guarded) refl))
            | inr (provider, found) ↦
                inr (provider, found, rw (good, guarded) (rw (found, guarded) refl))
          ]
        ]
    where
      get_cases :
          (r : Result Error (ProviderAdapter W))
          → ((e : Error) × (r ≡ err e)) ⊎ ((p : ProviderAdapter W) × (r ≡ ok p))
      get_cases (err e) = inl (e, refl)
      get_cases (ok p) = inr (p, refl)

  -- An approved request, and the world that its adapter made.
  abbrev pub Approved : Option String → RequestMethod → Agent W → W → Type 0
  Approved token method s world =
      (a : Approves env token method s) × Made a.change_set s.world world

  made-on_apply :
      (token : Option String) (cs : ChangeSet) (approval : ApprovalEnvelope) (s : Agent W)
      → ((on_apply env token cs approval s).1.world ≡ s.world)
        ⊎ Approved token
            (RequestMethod.apply_change cs approval)
            s
            (on_apply env token cs approval s).1.world
  unfolding on_apply
  made-on_apply token cs approval s =
      elim (Bool-cases (is_some_text cs.scope.host_id env.host.host_id)) [
        | inr other ↦ inl (rw other refl)
        | inl here ↦
            let c =
              consume_approval env.foreign (approval_request env token cs approval) s.ledger in
            let message : String =
              "approval envelope is invalid, expired, or not bound to change set" in
            elim (world-guarded env "apply_failed" "approval_invalid" message
              (λ provider. provider.apply_change) cs approval c.0 (record s { ledger = c.1 })) [
                | inl same ↦ inl (rw here same)
                | inr accepted ↦
                    elim (call-guarded "apply_failed" "approval_invalid" message
                      (λ provider. provider.apply_change) cs approval c.0
                      (record s { ledger = c.1 })) [
                        | inl same ↦ inl (rw here same)
                        | inr (provider, found, world) ↦ inr (
                          record {
                            change_set = cs;
                            approval = approval;
                            called = inl refl;
                            here = is_some_text→eq cs.scope.host_id env.host.host_id here;
                            accepted = accepted;
                          },
                          (provider, found, inl (rw here world)),
                        )
                      ]
              ]
      ]

  made-on_rollback :
      (token : Option String) (cs : ChangeSet) (approval : ApprovalEnvelope) (s : Agent W)
      → ((on_rollback env token cs approval s).1.world ≡ s.world)
        ⊎ Approved token
            (RequestMethod.rollback cs approval)
            s
            (on_rollback env token cs approval s).1.world
  unfolding on_rollback
  made-on_rollback token cs approval s =
      elim (Bool-cases (is_some_text cs.scope.host_id env.host.host_id)) [
        | inr other ↦ inl (rw other refl)
        | inl here ↦
            let c =
              consume_approval env.foreign (approval_request env token cs approval) s.ledger in
            let message : String =
              "rollback approval envelope is invalid or not bound to change set" in
            elim (world-guarded env "rollback_failed" "approval_invalid" message
              (λ provider. provider.rollback_change) cs approval c.0 (record s { ledger = c.1 })) [
                | inl same ↦ inl (rw here same)
                | inr accepted ↦
                    elim (call-guarded "rollback_failed" "approval_invalid" message
                      (λ provider. provider.rollback_change) cs approval c.0
                      (record s { ledger = c.1 })) [
                        | inl same ↦ inl (rw here same)
                        | inr (provider, found, world) ↦ inr (
                          record {
                            change_set = cs;
                            approval = approval;
                            called = inr refl;
                            here = is_some_text→eq cs.scope.host_id env.host.host_id here;
                            accepted = accepted;
                          },
                          (provider, found, inr (rw here world)),
                        )
                      ]
              ]
      ]

  made-dispatch :
      (token : Option String) (method : RequestMethod) (s : Agent W)
      → ((dispatch env token method s).1.world ≡ s.world)
        ⊎ Approved token method s (dispatch env token method s).1.world
  unfolding dispatch on_enroll on_ack
  made-dispatch token (RequestMethod.apply_change cs approval) s = made-on_apply token cs approval s
  made-dispatch token (RequestMethod.rollback cs approval) s = made-on_rollback token cs approval s
  made-dispatch token (RequestMethod.collect scope cursor) s =
      inl (world-on_collect env scope cursor s)
  made-dispatch token _ s = inl refl

  -- A request that changes the world is of the right version and authenticated, and the world after
  -- it is made by the apply or the rollback of the adapter that is registered for the approved change
  -- set, out of the world before.
  pub process_request-Approved :
      (request : RequestEnvelope) (s : Agent W)
      → ((process_request env request s).1.world ≡ s.world)
        ⊎ ((request.protocol_version ≡ protocol_version)
            × (authenticated env request s.ledger.auth ≡ true)
            × Approved request.token request.method s (process_request env request s).1.world)
  unfolding process_request
  process_request-Approved request s =
      elim (Bool-cases (request.protocol_version == protocol_version)) [
        | inr differs ↦ inl (rw differs refl)
        | inl same ↦ elim (Bool-cases (authenticated env request s.ledger.auth)) [
          | inr bad ↦ inl (rw (same, bad) refl)
          | inl good ↦ elim (made-dispatch request.token request.method s) [
            | inl kept ↦ inl (rw (same, good) kept)
            | inr approved ↦ inr (ground arith, good, rw (same, good) approved)
          ]
        ]
      ]
